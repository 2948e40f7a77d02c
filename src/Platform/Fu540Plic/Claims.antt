-- ===== src/Platform/Fu540Plic/Claims.antt =====
-- Which source the controller finds, and what a claim does.
use dse_vp.Base.{
  ℕ, zero, suc, ◌+◌, ◌-◌, ◌*◌, ◌/◌, fun_ext, ◌≤◌, ◌≡◌, inl, inr, refl, ap, ◌∙◌, subst, Bool, true,
  false, not, ◌&&◌, none, some, ltb, ◌==◌, if◌then◌else◌, arith, Bool-cases,
}
use dse_vp.Core.Trap.{supervisor_mode}
use dse_vp.Platform.Scan.{scan, IsBest, scan-IsBest}
use dse_vp.Platform.IrqBits.{test_irq, clear_irq, test-clear}
use dse_vp.Platform.Fu540Plic.{
  Fu540Plic, numirq, is_enabled, is_pending, is_candidate, passes, next_from, next_pending_irq,
  read_hartctx, config_level, clear_pending,
}

inside :
    (hart lvl : ℕ) (p : Fu540Plic) (irq : ℕ)
    → is_candidate hart lvl p numirq ≡ false
    → irq ≤ numirq
    → (is_candidate hart lvl p irq && not (ltb irq numirq)) ≡ false
inside hart lvl p irq idle h = elim (Bool-cases (ltb irq numirq)) [
  | inl e ↦ ground arith
  | inr e ↦
      subst (λ j. (is_candidate hart lvl p j && not (ltb j numirq)) ≡ false) (ground arith)
        (ap (λ b. b && true) idle)
]

-- Where the last source is not both enabled and pending, the loop is the search of the other controller.
next_from-scan :
    (hart lvl : ℕ) (ignth : Bool) (p : Fu540Plic) (left irq selirq maxpri : ℕ)
    → is_candidate hart lvl p numirq ≡ false
    → irq + left ≤ numirq + 1
    → next_from hart lvl ignth p left irq selirq maxpri
      ≡ some (scan (passes hart lvl ignth p) p.interrupt_priorities left irq selirq maxpri)
unfolding next_from scan
next_from-scan hart lvl ignth p zero irq selirq maxpri idle fits = refl
next_from-scan hart lvl ignth p (suc left) irq selirq maxpri idle fits =
    let prio = p.interrupt_priorities irq in
    let better = passes hart lvl ignth p irq && ltb maxpri prio in
    let id = if better then irq else selirq in
    let best = if better then prio else maxpri in
    ap (λ b. if b then none else next_from hart lvl ignth p left (irq + 1) id best)
      (inside hart lvl p irq idle (omega arith))
    ∙ next_from-scan hart lvl ignth p left (irq + 1) id best idle (omega arith)

-- The register at the address `4 * n` of the controller, the one that the guest writes for source `n`: the
-- range starts at 4.
abbrev pub priority_register : Fu540Plic → ℕ → ℕ
priority_register p n = p.interrupt_priorities ((4 * n - 4) / 4)

-- `id` is the first of the sources with the highest value in the priority register of the source after it,
-- among those that pass, or 0 if there is none.
abbrev pub IsNext : ℕ → ℕ → Bool → Fu540Plic → ℕ → Type 0
IsNext hart lvl ignth p id =
    (top : ℕ) × IsBest (passes hart lvl ignth p) (λ irq. priority_register p (irq + 1)) (numirq + 1)
      id top

pending_irq-IsNext :
    (hart lvl : ℕ) (ignth : Bool) (p : Fu540Plic)
    → is_candidate hart lvl p numirq ≡ false
    → (hart == 0 && lvl == supervisor_mode) ≡ false
    → (id : ℕ) × (next_pending_irq hart lvl ignth p ≡ some id) × IsNext hart lvl ignth p id
unfolding next_pending_irq
pending_irq-IsNext hart lvl ignth p idle level =
    let test = passes hart lvl ignth p in
    let prio = p.interrupt_priorities in
    let start : IsBest test prio 1 0 0 = record {
      found = inl (refl, refl);
      highest = λ j p q. absurd (omega arith);
      first = λ j p q. absurd (omega arith);
    } in
    (
      scan test prio numirq 1 0 0,
      ap (λ b. if b then none else next_from hart lvl ignth p numirq 1 0 0) level
          ∙ next_from-scan hart lvl ignth p numirq 1 0 0 idle (omega arith),
      subst (λ f. (top : ℕ) × IsBest test f (numirq + 1) (scan test prio numirq 1 0 0) top)
          (fun_ext (λ irq. ap prio (omega arith)))
          (scan-IsBest test prio numirq 1 0 0 (omega arith) start),
    )

cleared :
    (id : ℕ) (p : Fu540Plic)
    → id ≤ numirq
    → (q : Fu540Plic) × ((if id == 0 then some p else clear_pending id p) ≡ some q)
      × (q.hart_context ≡ p.hart_context)
      × (q.target_harts ≡ p.target_harts)
      × ((j : ℕ)
          → 1 ≤ j
          → test_irq q.pending_interrupts j
            ≡ (if j == id then false else test_irq p.pending_interrupts j))
unfolding clear_pending
cleared zero p h = (p, refl, refl, refl, λ j k. ground arith)
cleared (suc n) p h = (
  record p { pending_interrupts = clear_irq p.pending_interrupts (suc n) },
  ground arith,
  refl,
  refl,
  λ j k. test-clear p.pending_interrupts (suc n) j,
)

-- A read of a hart's claim register, of a level that the hart has, succeeds where source 53 is not both
-- enabled for it and pending. Of the sources that are enabled and pending it returns the first one for which
-- the priority register of the next source, not its own, has the highest value, or 0 if all these values are
-- 0, whatever the threshold. It clears the pending bit of that source and of no other, and leaves the pins.
pub read_hartctx-claim :
    (hart level l : ℕ) (p : Fu540Plic)
    → config_level hart level ≡ some l
    → (hart == 0 && level == supervisor_mode) ≡ false
    → (is_enabled hart level numirq p && is_pending numirq p) ≡ false
    → (q : Fu540Plic) × (read_hartctx 4 4 hart level p ≡ some q)
      × IsNext hart level true p (q.hart_context hart l 1)
      × (q.target_harts ≡ p.target_harts)
      × ((j : ℕ)
          → 1 ≤ j
          → test_irq q.pending_interrupts j
            ≡ (if j == q.hart_context hart l 1 then false else test_irq p.pending_interrupts j))
unfolding read_hartctx
read_hartctx-claim hart level l p e has idle =
    let (id, found, (top, best)) = pending_irq-IsNext hart level true p idle has in
    let claimed = record p {
      hart_context = λ h v n. if h == hart && (v == l && n == 1) then id else p.hart_context h v n;
    } in
    let (q, f, context, harts, bits) = cleared id claimed (ground (arith, best.found)) in
    let kept : q.hart_context hart l 1 ≡ id = ap (λ c. c hart l 1) context ∙ ground arith in
    (q, rw (read_hartctx, found, e) f, rw kept (top, best), harts, λ j k. rw kept (bits j k))
