-- ===== src/Platform/Fu540Plic/Tests.antt =====
-- The interrupt controller of the FU540 at concrete states.
use dse_vp.Base.{ℕ, ◌≤◌, ◌≡◌, refl, true, false, some, none, arith, if◌then◌else◌, ◌==◌, Option}
use dse_vp.Core.Trap.{machine_mode}
use dse_vp.Platform.IrqBits.{test_irq}
use dse_vp.Platform.Fu540Plic.{
  Fu540Plic, is_enabled, is_pending, gateway_trigger_interrupt, read_hartctx, run,
}
use dse_vp.Platform.Fu540Plic.Claims.{IsNext, read_hartctx-claim}
use dse_vp.Platform.Fu540Plic.LastSource.{run-last_source}
use dse_vp.Core.Exec.Tests.{start}

-- The sources 3, 40 and 53 are enabled, and those of the first word of `pending` are pending.
abbrev plic : ℕ → Fu540Plic
plic pending = record {
  interrupt_priorities = λ i. if i == 40 then 5 else 1;
  pending_interrupts = λ i. if i == 0 then pending else 0;
  enabled_irqs = λ h l i. if i == 0 then 8 else 2097408;
  hart_context = λ h l i. 0;
  target_harts = λ i. start.hart;
  harts = 5;
  notified = false;
}

read_hartctx-claim_example :
    (q : Fu540Plic) × (read_hartctx 4 4 1 machine_mode (plic 8) ≡ some q)
    × IsNext 1 machine_mode true (plic 8) (q.hart_context 1 machine_mode 1)
    × (q.target_harts ≡ (plic 8).target_harts)
    × ((j : ℕ)
        → 1 ≤ j
        → test_irq q.pending_interrupts j ≡ (
            if j == q.hart_context 1 machine_mode 1
            then false
            else test_irq (plic 8).pending_interrupts j))
unfolding is_enabled is_pending test_irq
read_hartctx-claim_example = read_hartctx-claim 1 machine_mode machine_mode (plic 8) refl refl refl

abbrev get : Option Fu540Plic → Fu540Plic
get none = plic 0
get (some q) = q

run-last_source_example : run (get (gateway_trigger_interrupt 53 (plic 0))) ≡ none
unfolding gateway_trigger_interrupt is_enabled test_irq
run-last_source_example =
    run-last_source (plic 0) (get (gateway_trigger_interrupt 53 (plic 0))) (omega arith) refl refl
