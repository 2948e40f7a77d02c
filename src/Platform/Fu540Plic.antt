-- ===== src/Platform/Fu540Plic.antt =====
-- The platform-level interrupt controller of vp/src/platform/common/fu540_plic.cpp and fu540_plic.h. The arrays
-- of registers are functions of the hart, the level and the index. An exception and a failed assertion, also
-- that of an index of a register array, are `none`. Delays are left out: `notified` is the pending
-- notification of `e_run`. The callbacks get the offset in the range of registers and the size of the access.
pub mod Claims
pub mod LastSource
pub mod Tests
use dse_vp.Base.{
  ℕ, zero, suc, ◌+◌, ◌/◌, ◌%◌, Bool, true, false, not, ◌&&◌, ◌||◌, Option, none, some, min, ltb,
  leb, ◌==◌, if◌then◌else◌,
}
use dse_vp.Core.Trap.{
  Hart, machine_mode, supervisor_mode, trigger_external_interrupt, clear_external_interrupt,
}
use dse_vp.Platform.IrqBits.{store, test_irq, set_irq, clear_irq}

abbrev pub numirq : ℕ
numirq = 53

abbrev pub max_thr : ℕ
max_thr = 7

abbrev pub max_prio : ℕ
max_prio = 7

-- `enabled_irqs` and `hart_context` are the words of a hart's two configurations; those of hart 0
-- are one, which stands at its machine mode.
pub record Fu540Plic : Type 0 where
  pub interrupt_priorities : ℕ → ℕ
  pub pending_interrupts : ℕ → ℕ
  pub enabled_irqs : ℕ → ℕ → ℕ → ℕ
  pub hart_context : ℕ → ℕ → ℕ → ℕ
  pub target_harts : ℕ → Hart
  pub harts : ℕ
  pub notified : Bool

-- The level at which the words of a configuration stand; there are those of two levels.
abbrev pub config_level : ℕ → ℕ → Option ℕ
config_level hart level =
    if level == machine_mode
    then some machine_mode
    else if level == supervisor_mode
    then some (if hart == 0 then machine_mode else supervisor_mode)
    else none

unfoldable pub gateway_trigger_interrupt : ℕ → Fu540Plic → Option Fu540Plic
gateway_trigger_interrupt irq p =
    if irq == 0 || ltb numirq irq
    then none
    else some (record p { pending_interrupts = set_irq p.pending_interrupts irq; notified = true })

unfoldable pub clear_pending : ℕ → Fu540Plic → Option Fu540Plic
clear_pending irq p =
    if ltb 0 irq && leb irq numirq
    then some (record p { pending_interrupts = clear_irq p.pending_interrupts irq })
    else none

unfoldable pub is_pending : ℕ → Fu540Plic → Bool
is_pending irq p = test_irq p.pending_interrupts irq

unfoldable pub is_enabled : ℕ → ℕ → ℕ → Fu540Plic → Bool
is_enabled hart level irq p = test_irq (p.enabled_irqs hart level) irq

abbrev pub is_claim_access : ℕ → Bool
is_claim_access addr = addr / 4 % 2 == 1

unfoldable pub get_threshold : ℕ → ℕ → Fu540Plic → ℕ
get_threshold hart level p = p.hart_context hart level 0

-- Whether the loop of `next_pending_irq` looks at the priority of a source, and at its threshold. The
-- level is one of the two that have registers.
abbrev pub is_candidate : ℕ → ℕ → Fu540Plic → ℕ → Bool
is_candidate hart lvl p irq = is_enabled hart lvl irq p && is_pending irq p

abbrev pub passes : ℕ → ℕ → Bool → Fu540Plic → ℕ → Bool
passes hart lvl ignth p irq =
    is_candidate hart lvl p irq
    && (ignth || leb (get_threshold hart lvl p) (p.interrupt_priorities irq))

-- `left` more sources from `irq` on. The view of the priorities has `numirq` elements, the first of
-- which belongs to the address of source 1.
unfoldable pub next_from : ℕ → ℕ → Bool → Fu540Plic → ℕ → ℕ → ℕ → ℕ → Option ℕ
next_from hart lvl ignth p zero irq selirq maxpri = some selirq
next_from hart lvl ignth p (suc left) irq selirq maxpri =
    let prio = p.interrupt_priorities irq in
    let better = passes hart lvl ignth p irq && ltb maxpri prio in
    let rest =
      next_from hart lvl ignth p left (irq + 1) (if better then irq else selirq)
        (if better then prio else maxpri) in
    if is_candidate hart lvl p irq && not (ltb irq numirq) then none else rest

unfoldable pub next_pending_irq : ℕ → ℕ → Bool → Fu540Plic → Option ℕ
next_pending_irq hart lvl ignth p =
    if hart == 0 && lvl == supervisor_mode then none else next_from hart lvl ignth p numirq 1 0 0

-- The level for which an interrupt is pending, if there is one.
unfoldable pub has_pending_irq : ℕ → Fu540Plic → Option (Option ℕ)
has_pending_irq hart p =
    elim (if hart == 0 then some 0 else next_pending_irq hart supervisor_mode false p) [
      | none ↦ none
      | some s ↦ elim (ltb 0 s) [
        | true ↦ some (some supervisor_mode)
        | false ↦ elim (next_pending_irq hart machine_mode false p) [
          | none ↦ none
          | some m ↦ some (if ltb 0 m then some machine_mode else none)
        ]
      ]
    ]

unfoldable pub read_hartctx : ℕ → ℕ → ℕ → ℕ → Fu540Plic → Option Fu540Plic
read_hartctx addr size hart level p =
    if not (addr % 4 == 0) || not (size == 4)
    then none
    else if not (is_claim_access addr)
    then some p
    else elim (next_pending_irq hart level true p) [
      | none ↦ none
      | some irq ↦ elim (config_level hart level) [
        | none ↦ none
        | some l ↦
            let claimed = record p {
              hart_context =
                  λ h v n. if h == hart && (v == l && n == 1) then irq else p.hart_context h v n;
            } in
            if irq == 0 then some claimed else clear_pending irq claimed
      ]
    ]

unfoldable pub write_hartctx : ℕ → ℕ → ℕ → ℕ → Fu540Plic → Option Fu540Plic
write_hartctx addr size hart level p =
    if not (addr % 4 == 0) || not (size == 4)
    then none
    else if is_claim_access addr
    then some (record p {
      target_harts = λ n.
          if n == hart then clear_external_interrupt level (p.target_harts n) else p.target_harts n;
    })
    else elim (config_level hart level) [
      | none ↦ none
      | some l ↦ some (record p {
        hart_context = λ h v n.
            if h == hart && (v == l && n == 0)
            then min (p.hart_context h v n) max_thr
            else p.hart_context h v n;
      })
    ]

unfoldable pub write_irq_prios : ℕ → Fu540Plic → Option Fu540Plic
write_irq_prios addr p =
    let idx = addr / 4 in
    if leb idx numirq && ltb idx numirq
    then some (record p {
      interrupt_priorities =
          store p.interrupt_priorities idx (min (p.interrupt_priorities idx) max_prio);
    })
    else none

abbrev pub notify_hart : ℕ → Option ℕ → Fu540Plic → Fu540Plic
notify_hart i none p = p
notify_hart i (some lvl) p = record p {
  target_harts =
      λ n. if n == i then trigger_external_interrupt lvl (p.target_harts n) else p.target_harts n;
}

unfoldable pub notify_from : ℕ → ℕ → Fu540Plic → Option Fu540Plic
notify_from zero i p = some p
notify_from (suc left) i p = elim (has_pending_irq i p) [
  | none ↦ none
  | some lvl ↦ notify_from left (i + 1) (notify_hart i lvl p)
]

-- `run` from one wait to the next.
unfoldable pub run : Fu540Plic → Option Fu540Plic
run p = notify_from p.harts 0 (record p { notified = false })
