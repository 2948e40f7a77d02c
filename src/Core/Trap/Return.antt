-- ===== src/Core/Trap/Return.antt =====
-- A handler's entry and its return belong together.
use dse_vp.Base.{
  ℕ, ◌<◌, ◌≤◌, ◌≡◌, ◌≢◌, inl, inr, refl, arith, some, Bool, false, ◌==◌, if◌then◌else◌,
}
use dse_vp.Core.Trap.{
  Hart, machine_mode, supervisor_mode, none_mode, compute_pending_interrupts,
  switch_to_trap_handler, return_from_trap_handler,
}
use dse_vp.Core.Trap.Pending.{IsMasks, compute_pending-exact}
use dse_vp.Core.Trap.Delegation.{IsLevel}

-- The interrupt enable bits of the three modes are as before.
abbrev pub SameEnables : Hart → Hart → Type 0
SameEnables h k =
    let m = h.csrs.mstatus in
    let n = k.csrs.mstatus in (n.uie ≡ m.uie) × (n.sie ≡ m.sie) × (n.mie ≡ m.mie)

-- From one of the three modes, entering the handler of a mode that is not below the current one and
-- returning from it succeeds and goes back to the same address and mode, with the interrupt enable
-- bits of all modes as they were.
pub switch-return :
    (level : ℕ) (h : Hart)
    → IsLevel level
    → IsLevel h.prv
    → h.prv ≤ level
    → (g : Hart) × (k : Hart) × (switch_to_trap_handler level h ≡ some g)
      × (return_from_trap_handler level g ≡ some k)
      × (k.pc ≡ h.pc)
      × (k.prv ≡ h.prv)
      × SameEnables h k
unfolding switch_to_trap_handler return_from_trap_handler
switch-return level h (inl e) known low =
    rw e (_, _, refl, refl, refl, omega arith, (refl, refl, refl))
switch-return level h (inr (inl e)) known low =
    rw e (_, _, refl, refl, refl, omega arith, (refl, refl, refl))
switch-return level h (inr (inr e)) known low =
    rw e (_, _, refl, refl, refl, omega arith, (refl, refl, refl))

abbrev enabled : Hart → Bool
enabled g =
    if g.prv == machine_mode
    then g.csrs.mstatus.mie
    else if g.prv == supervisor_mode
    then g.csrs.mstatus.sie
    else g.csrs.mstatus.uie

reported_above :
    (g : Hart)
    → IsMasks g.csrs
    → enabled g ≡ false
    → (compute_pending_interrupts g).target_mode ≢ none_mode
    → g.prv < (compute_pending_interrupts g).target_mode
reported_above g w off busy =
    let (accepted, _) = compute_pending-exact g 0 w (omega arith) busy in ground arith

-- For delegation masks that are 32-bit words: entering the handler of one of the three modes
-- succeeds, and what is reported in the state after it, if anything is, is for a more privileged
-- mode than the handler's.
pub switch-not_reentered :
    (level : ℕ) (h : Hart)
    → IsLevel level
    → IsMasks h.csrs
    → (g : Hart) × (switch_to_trap_handler level h ≡ some g)
      × ((compute_pending_interrupts g).target_mode ≢ none_mode
          → level < (compute_pending_interrupts g).target_mode)
unfolding switch_to_trap_handler
switch-not_reentered level h (inl e) w = rw e (_, refl, λ busy. reported_above _ w refl busy)
switch-not_reentered level h (inr (inl e)) w = rw e (_, refl, λ busy. reported_above _ w refl busy)
switch-not_reentered level h (inr (inr e)) w = rw e (_, refl, λ busy. reported_above _ w refl busy)
