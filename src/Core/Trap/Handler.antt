-- ===== src/Core/Trap/Handler.antt =====
-- Taking an interrupt: `prepare_interrupt` and `switch_to_trap_handler` after an instruction.
use native.Mathlib.Decide.{ℕ_discrete}
use dse_vp.Base.{
  ℕ, ◌<◌, ◌≤◌, ◌≡◌, ◌≢◌, ◌⊎◌, inl, inr, refl, sym, ◌∙◌, true, ==_true, ==_false, if◌then◌else◌,
  digit, arith, Option, some, none,
}
use dse_vp.Core.Trap.{
  Hart, PendingInterrupts, none_mode, is_set, select_interrupt, prepare_interrupt, store_cause,
  compute_pending_interrupts, switch_to_trap_handler, take_interrupt,
}
use dse_vp.Core.Trap.Pending.{
  route, IsRaised, IsMasks, IsInterruptMask, compute_pending-exact, compute_pending-some,
}
use dse_vp.Core.Trap.Delegation.{IsLevel, epc, cause, switch_to-exact}

abbrev Selected : ℕ → Option ℕ → Type 0
Selected x r = (n : ℕ) × (r ≡ some n) × (digit x n ≡ 1) × (n < 12)

pick :
    (x k : ℕ) (rest : Option ℕ)
    → k < 12
    → (digit x k ≢ 1 → Selected x rest)
    → Selected x (if is_set x k then some k else rest)
pick x k rest lt miss = elim (ℕ_discrete (digit x k) 1) [
  | yes e ↦ rw (==_true _ _ e) (k, refl, e, lt)
  | no ne ↦ rw (==_false _ _ ne) (miss ne)
]

-- Some interrupt of a nonempty set is selected.
select_interrupt-some : (x : ℕ) → IsInterruptMask x → x ≢ 0 → Selected x (select_interrupt x)
unfolding select_interrupt
select_interrupt-some x m nz = pick x 11 _ (omega arith) λ z11. pick x 3 _ (omega arith) λ z3.
    pick x 7 _ (omega arith) λ z7. pick x 9 _ (omega arith) λ z9. pick x 1 _ (omega arith) λ z1.
      pick x 5 _ (omega arith) λ z5. pick x 8 _ (omega arith) λ z8.
        pick x 0 _ (omega arith) λ z0. pick x 4 _ (omega arith) λ z4. absurd (nz (omega arith))

store_cause-exact :
    (level exc : ℕ) (h : Hart)
    → IsLevel level
    → (g : Hart) × (store_cause level exc h ≡ some g)
      × (cause g.csrs level ≡ record { interrupt = true; exception_code = exc })
      × (g.pc ≡ h.pc)
unfolding store_cause
store_cause-exact level exc h (inl e) = rw e (_, refl, refl, refl)
store_cause-exact level exc h (inr (inl e)) = rw e (_, refl, refl, refl)
store_cause-exact level exc h (inr (inr e)) = rw e (_, refl, refl, refl)

-- The state after the report `r` has been served in `g`.
record IsServed (h g : Hart) (r : PendingInterrupts) : Type 0 where
  number : ℕ
  in_range : number < 12
  raised : digit r.pending number ≡ 1
  entered : g.prv ≡ r.target_mode
  saved : epc g.csrs g.prv ≡ h.pc
  stored : cause g.csrs g.prv ≡ record { interrupt = true; exception_code = number }
  free : g.lr_sc_counter ≡ 0

serve :
    (r : PendingInterrupts) (h : Hart)
    → IsLevel r.target_mode
    → Selected r.pending (select_interrupt r.pending)
    → (g : Hart) × (elim (prepare_interrupt r h) [
      | none ↦ none
      | some f ↦ switch_to_trap_handler r.target_mode f
    ]
        ≡ some g)
      × IsServed h g r
unfolding prepare_interrupt
serve r h level (n, chosen, set, lt) =
    let (f, stored, causes, same_pc) = store_cause-exact r.target_mode n h level in
    let (g, switched, q) = switch_to-exact r.target_mode f level in
    (
      g,
      rw chosen (rw stored switched),
      record {
        number = n;
        in_range = lt;
        raised = set;
        entered = q.entered;
        saved = rw q.entered (q.saved ∙ same_pc);
        stored = rw q.entered (q.same_cause ∙ causes);
        free = q.free;
      },
    )

-- For a processor whose delegation masks are 32-bit words and whose `mie` holds only bits of
-- `MIE_MASK`: after an instruction an interrupt is either not reported, and nothing changes, or it
-- is taken. Then the processor enters the level that the delegation registers give a raised
-- interrupt, never a level below the current one, that level's registers hold the interrupt's
-- number and the address to go back to, and the LR/SC reservation is gone. No exception is thrown.
pub take_interrupt-exact :
    (h : Hart)
    → IsMasks h.csrs
    → IsInterruptMask h.csrs.mie
    → (g : Hart) × (take_interrupt h ≡ some g)
      × (((compute_pending_interrupts h).target_mode ≡ none_mode) × (g ≡ h)
          ⊎ (n : ℕ) × IsRaised h.csrs n
            × (route h.csrs n ≡ g.prv)
            × (h.prv ≤ g.prv)
            × (epc g.csrs g.prv ≡ h.pc)
            × (cause g.csrs g.prv ≡ record { interrupt = true; exception_code = n })
            × (g.lr_sc_counter ≡ 0))
unfolding take_interrupt
take_interrupt-exact h w mask =
    let r = compute_pending_interrupts h in
    elim (ℕ_discrete r.target_mode none_mode) [
      | yes idle ↦ (h, ground arith, inl (idle, refl))
      | no busy ↦
          let (nz, ok, level, above) = compute_pending-some h mask busy in
          let (g, e, q) = serve r h level (select_interrupt-some r.pending ok nz) in
          let exact = compute_pending-exact h q.number w (omega (arith, q.in_range)) busy in
          (
            g,
            rw (==_false _ _ busy) e,
            inr (
              q.number,
              (exact.1.0 q.raised).0,
              (exact.1.0 q.raised).1 ∙ sym q.entered,
              rw q.entered above,
              q.saved,
              q.stored,
              q.free,
            ),
          )
    ]
