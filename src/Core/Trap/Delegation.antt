-- ===== src/Core/Trap/Delegation.antt =====
-- Where a synchronous trap goes.
use dse_vp.Base.{
  ℕ, ◌^◌, ◌≤◌, ◌<◌, ltb, Bool-cases, none, ◌≡◌, ◌⊎◌, inl, inr, refl, false, ◌||◌, bit_and, ◌==◌,
  if◌then◌else◌, digit, arith, and_comm, bit_and_iff, some, Option, ◌∙◌,
}
use dse_vp.Core.Trap.{
  Hart, Csrs, Cause, SimulationTrap, user_mode, supervisor_mode, machine_mode, prepare_trap,
  switch_to_trap_handler, take_trap,
}

-- The three levels that the processor has.
abbrev pub IsLevel : ℕ → Type 0
IsLevel p = (p ≡ user_mode) ⊎ ((p ≡ supervisor_mode) ⊎ (p ≡ machine_mode))

-- The level of a trap by the privileged specification: the least one that is not below the current
-- level and to which the delegation registers pass the trap on.
abbrev pub trap_level : Hart → ℕ → ℕ
trap_level h reason =
    if h.prv == machine_mode || digit h.csrs.medeleg reason == 0
    then machine_mode
    else if h.prv == supervisor_mode || digit h.csrs.sedeleg reason == 0
    then supervisor_mode
    else user_mode

abbrev pub epc : Csrs → ℕ → ℕ
epc c level =
    if level == machine_mode then c.mepc else if level == supervisor_mode then c.sepc else c.uepc

abbrev pub cause : Csrs → ℕ → Cause
cause c level =
    if level == machine_mode
    then c.mcause
    else if level == supervisor_mode
    then c.scause
    else c.ucause

abbrev pub tval : Csrs → ℕ → ℕ
tval c level =
    if level == machine_mode then c.mtval else if level == supervisor_mode then c.stval else c.utval

test_delegation : (reason mask : ℕ) → (bit_and (2 ^ reason) mask == 0) ≡ (digit mask reason == 0)
test_delegation reason mask = ground (arith, and_comm (2 ^ reason) mask, bit_and_iff mask reason)

-- What `switch_to_trap_handler` leaves in the registers of its level.
pub record IsEntered (level : ℕ) (h g : Hart) : Type 0 where
  pub entered : g.prv ≡ level
  pub saved : epc g.csrs level ≡ h.pc
  pub same_cause : cause g.csrs level ≡ cause h.csrs level
  pub same_tval : tval g.csrs level ≡ tval h.csrs level
  pub free : g.lr_sc_counter ≡ 0
  pub unlocked : g.bus_locked ≡ false

entry :
    (level : ℕ) (h g : Hart)
    → switch_to_trap_handler level h ≡ some g
    → IsEntered level h g
    → (g : Hart) × (switch_to_trap_handler level h ≡ some g) × IsEntered level h g
entry level h g e q = (g, e, q)

pub switch_to-exact :
    (level : ℕ) (h : Hart)
    → IsLevel level
    → (g : Hart) × (switch_to_trap_handler level h ≡ some g) × IsEntered level h g
unfolding switch_to_trap_handler
switch_to-exact level h (inl e) = rw e (
    entry 0 h _ refl (record {
      entered = refl;
      saved = refl;
      same_cause = refl;
      same_tval = refl;
      free = refl;
      unlocked = refl;
    }))
switch_to-exact level h (inr (inl e)) = rw e (
    entry 1 h _ refl (record {
      entered = refl;
      saved = refl;
      same_cause = refl;
      same_tval = refl;
      free = refl;
      unlocked = refl;
    }))
switch_to-exact level h (inr (inr e)) = rw e (
    entry 3 h _ refl (record {
      entered = refl;
      saved = refl;
      same_cause = refl;
      same_tval = refl;
      free = refl;
      unlocked = refl;
    }))

-- The level that a trap is prepared for and the state, where nothing is thrown.
abbrev prepared_at : SimulationTrap → Hart → Hart × ℕ
prepared_at e h =
    let c = h.csrs in
    let because : Cause = record { interrupt = false; exception_code = e.reason } in
    if trap_level h e.reason == machine_mode
    then (
      record h { pc = h.last_pc; csrs = record c { mcause = because; mtval = e.mtval } },
      machine_mode,
    )
    else if trap_level h e.reason == supervisor_mode
    then (
      record h { pc = h.last_pc; csrs = record c { scause = because; stval = e.mtval } },
      supervisor_mode,
    )
    else (
      record h { pc = h.last_pc; csrs = record c { ucause = because; utval = e.mtval } },
      user_mode,
    )

record IsPrepared (cast : ℕ → Option ℕ) (e : SimulationTrap) (h : Hart) (r : Hart × ℕ)
    : Type 0 where
  prepared : prepare_trap cast e h ≡ some r
  target : r.1 ≡ trap_level h e.reason
  is_level : IsLevel r.1
  no_lower : h.prv ≤ trap_level h e.reason
  restart : r.0.pc ≡ h.last_pc
  reason : cause r.0.csrs r.1 ≡ record { interrupt = false; exception_code = e.reason }
  value : tval r.0.csrs r.1 ≡ e.mtval

-- What `boost::lexical_cast<uint32_t>` does with an unsigned number by its documentation: a number of 32 bits is
-- kept, and for a larger one it throws.
abbrev pub IsCast : (ℕ → Option ℕ) → Type 0
IsCast cast = (n : ℕ) → cast n ≡ (if ltb n (2 ^ 32) then some n else none)

prepare_trap-exact :
    (cast : ℕ → Option ℕ) (e : SimulationTrap) (h : Hart)
    → IsCast cast
    → IsLevel h.prv
    → e.mtval < 2 ^ 32
    → IsPrepared cast e h (prepared_at e h)
unfolding prepare_trap
prepare_trap-exact cast e h casts level small =
    let m = test_delegation e.reason h.csrs.medeleg in
    let s = test_delegation e.reason h.csrs.sedeleg in
    record {
      prepared = ground (arith, casts e.mtval, m, s);
      target = ground (arith, m, s);
      is_level = ground (arith, m, s);
      no_lower = ground (arith, m, s);
      restart = ground (arith, m, s);
      reason = ground (arith, m, s);
      value = ground (arith, m, s);
    }

prepare_trap-none :
    (cast : ℕ → Option ℕ) (e : SimulationTrap) (h : Hart)
    → IsCast cast
    → 2 ^ 32 ≤ e.mtval
    → prepare_trap cast e h ≡ none
unfolding prepare_trap
prepare_trap-none cast e h casts large = ground (arith, casts e.mtval)

-- For a cast that is as documented, from user, supervisor or machine mode: a trap whose value has more than 32 bits is not taken, and the cast
-- of the value throws an exception. Any other one is taken, at the level that the specification names, which
-- is never below the level that trapped. That level's registers hold the trapping instruction's address, the
-- reason and the trap value, the LR/SC reservation is gone and the bus is unlocked.
pub take_trap-exact :
    (cast : ℕ → Option ℕ) (e : SimulationTrap) (h : Hart)
    → IsCast cast
    → IsLevel h.prv
    → ((2 ^ 32 ≤ e.mtval) × (take_trap cast e h ≡ none))
      ⊎ ((e.mtval < 2 ^ 32)
          × ((g : Hart) × (take_trap cast e h ≡ some g)
              × (g.prv ≡ trap_level h e.reason)
              × (h.prv ≤ g.prv)
              × (epc g.csrs g.prv ≡ h.last_pc)
              × (cause g.csrs g.prv ≡ record { interrupt = false; exception_code = e.reason })
              × (tval g.csrs g.prv ≡ e.mtval)
              × (g.lr_sc_counter ≡ 0)
              × (g.bus_locked ≡ false)))
unfolding take_trap
take_trap-exact cast e h casts level = elim (Bool-cases (ltb e.mtval (2 ^ 32))) [
  | inr big ↦
      let large : 2 ^ 32 ≤ e.mtval = ground (arith, big) in
      inl (large, rw (take_trap, prepare_trap-none cast e h casts large) refl)
  | inl fits ↦
      let small : e.mtval < 2 ^ 32 = ground (arith, fits) in
      let p = prepare_trap-exact cast e h casts level small in
      let (g, switched, q) = switch_to-exact (prepared_at e h).1 (prepared_at e h).0 p.is_level in
      inr (
        small,
        (
          g,
          rw (take_trap, p.prepared) switched,
          q.entered ∙ p.target,
          rw q.entered (rw p.target p.no_lower),
          rw q.entered (q.saved ∙ p.restart),
          rw q.entered (q.same_cause ∙ p.reason),
          rw q.entered (q.same_tval ∙ p.value),
          q.free,
          q.unlocked,
        ),
      )
]
