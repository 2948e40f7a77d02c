-- ===== src/Platform/Fe310Plic.antt =====
-- The platform-level interrupt controller of vp/src/platform/common/fe310_plic.h. The register
-- arrays are functions of the index, the interrupt targets are the harts of Core/Trap. An
-- assertion that fails is `none`; an index into `pending_interrupts` is below its size wherever
-- 32 * NumberInterruptEntries is at least NumberInterrupts, as in both instances of the template.
-- Delays are left out: `notified` is the pending notification of `e_run`.
pub mod Claims
pub mod Delivery
use dse_vp.Base.{
  ℕ, zero, suc, ◌+◌, ◌-◌, ◌/◌, ◌%◌, Bool, true, false, not, ◌&&◌, ◌||◌, Option, none, some, min,
  ltb, ◌==◌, if◌then◌else◌,
}
use dse_vp.Core.Trap.{Hart, trigger_external_interrupt, clear_external_interrupt}
use dse_vp.Platform.Scan.{scan}
use dse_vp.Platform.IrqBits.{store, test_irq, set_irq, clear_irq}

-- `hart_enabled_interrupts` is the flat array behind the view.
pub record Fe310Plic : Type 0 where
  pub interrupt_priorities : ℕ → ℕ
  pub pending_interrupts : ℕ → ℕ
  pub hart_enabled_interrupts : ℕ → ℕ
  pub priority_threshold : ℕ → ℕ
  pub claim_response : ℕ → ℕ
  pub hart_eip : ℕ → Bool
  pub target_harts : ℕ → Hart
  pub irq_level : ℕ
  pub notified : Bool

-- The template's arguments.
pub record Config : Type 0 where
  pub number_cores : ℕ
  pub number_interrupts : ℕ
  pub max_priority : ℕ

-- The row of a hart starts `hart_id * RowSize` elements from the start, with a `RowSize` of 1.
abbrev pub is_candidate : Fe310Plic → ℕ → Bool → ℕ → Bool
is_candidate p hart_id consider_threshold i =
    test_irq (λ idx. p.hart_enabled_interrupts (hart_id + idx)) i
    && (test_irq p.pending_interrupts i
        && (ltb 0 (p.interrupt_priorities i)
            && (not consider_threshold
                || ltb (p.priority_threshold hart_id) (p.interrupt_priorities i))))

abbrev pub set_eip : ℕ → Bool → Fe310Plic → Fe310Plic
set_eip i b p = record p {
  hart_eip = λ n. if n == i then b else p.hart_eip n;
  target_harts = λ n.
      if n == i
      then (if b
          then trigger_external_interrupt p.irq_level (p.target_harts n)
          else clear_external_interrupt p.irq_level (p.target_harts n))
      else p.target_harts n;
}

module _ (c : Config) where
  unfoldable pub gateway_trigger_interrupt : ℕ → Fe310Plic → Option Fe310Plic
  gateway_trigger_interrupt irq_id p =
      if ltb 0 irq_id && ltb irq_id c.number_interrupts
      then some
          (record p { pending_interrupts = set_irq p.pending_interrupts irq_id; notified = true })
      else none

  unfoldable pub clear_pending_interrupt : ℕ → Fe310Plic → Option Fe310Plic
  clear_pending_interrupt irq_id p =
      if ltb irq_id c.number_interrupts
      then some (record p { pending_interrupts = clear_irq p.pending_interrupts irq_id })
      else none

  unfoldable pub hart_get_next_pending_interrupt : Fe310Plic → ℕ → Bool → ℕ
  hart_get_next_pending_interrupt p hart_id consider_threshold =
      scan (is_candidate p hart_id consider_threshold) p.interrupt_priorities
        (c.number_interrupts - 1) 1 0 0

  unfoldable pub hart_has_pending_enabled_interrupts : Fe310Plic → ℕ → Bool
  hart_has_pending_enabled_interrupts p hart_id =
      ltb 0 (hart_get_next_pending_interrupt p hart_id true)

  -- The loop over the elements from `i` on, `left` of which are left.
  unfoldable pub clamp_from : ℕ → ℕ → (ℕ → ℕ) → ℕ → ℕ
  clamp_from zero i priorities = priorities
  clamp_from (suc left) i priorities =
      clamp_from left (i + 1) (store priorities i (min (priorities i) c.max_priority))

  -- The view has `number_interrupts + 1` elements and its `end()` is the last of them, which the loop
  -- leaves out.
  unfoldable pub post_write_interrupt_priorities : Fe310Plic → Fe310Plic
  post_write_interrupt_priorities p = record p {
    interrupt_priorities = clamp_from (c.number_interrupts + 1 - 1) 0 p.interrupt_priorities;
  }

  -- The first argument is the offset of the access, the second its size.
  unfoldable pub pre_read_hart_config : ℕ → ℕ → Fe310Plic → Option Fe310Plic
  pre_read_hart_config addr size p =
      let idx = addr / 4 in
      if not (addr % 4 == 0)
      then none
      else if not (idx % 2 == 1)
      then some p
      else if size == 4 && ltb (idx - 1) c.number_cores
      then (let min_id = hart_get_next_pending_interrupt p 0 false in
          clear_pending_interrupt min_id
            (record p { claim_response = store p.claim_response (idx - 1) min_id }))
      else none

  unfoldable pub post_write_hart_config : ℕ → ℕ → Fe310Plic → Option Fe310Plic
  post_write_hart_config addr size p =
      let idx = addr / 4 in
      if not (addr % 4 == 0)
      then none
      else if not (idx % 2 == 1)
      then some p
      else if size == 4 && ltb (idx - 1) c.number_cores
      then (if hart_has_pending_enabled_interrupts p (idx - 1)
          then (if p.hart_eip (idx - 1) then some (set_eip (idx - 1) true p) else none)
          else some (set_eip (idx - 1) false p))
      else none

  -- One pass of the loop body for hart `i`.
  abbrev pub wake_hart : ℕ → Fe310Plic → Fe310Plic
  wake_hart i p =
      if not (p.hart_eip i) && hart_has_pending_enabled_interrupts p i then set_eip i true p else p

  unfoldable pub wake_from : ℕ → ℕ → Fe310Plic → Fe310Plic
  wake_from zero i p = p
  wake_from (suc left) i p = wake_from left (i + 1) (wake_hart i p)

  -- `run` from one wait to the next.
  unfoldable pub run : Fe310Plic → Fe310Plic
  run p = wake_from c.number_cores 0 (record p { notified = false })
