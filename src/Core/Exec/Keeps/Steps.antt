-- ===== src/Core/Exec/Keeps/Steps.antt =====
-- A step of the simulation keeps the condition on the state, and the register `zero` at 0.
use dse_vp.Base.{
  ℕ, ◌%◌, ◌^◌, ◌≡◌, refl, subst, Bool, true, false, not, ◌&&◌, Option, none, some, arith, bit_and,
  not32, if◌then◌else◌, ◌==◌, and_low,
}
use dse_vp.Core.Trap.{
  Hart, none_mode, SimulationTrap, PendingInterrupts, prepare_trap, prepare_interrupt,
  compute_pending_interrupts, switch_to_trap_handler, take_interrupt, take_trap,
}
use dse_vp.Core.Opcode.{Mapping}
use dse_vp.Core.Instr.Decode.{Architecture}
use dse_vp.Core.Instr.{is_custom, is_compressed}
use dse_vp.Core.Instr.Expand.{decode_and_expand_compressed}
use dse_vp.Core.Exec.{Iss, Bus, Outcome, done, trapped, stopped, Status, ◌>>◌, modify, stop, pure}
use dse_vp.Core.Exec.Csr.Access.{illegal_instr, require_isa, pc_alignment_mask}
use dse_vp.Core.Exec.Step.Run.{
  is_rv64_only, is_undef, exec_op, fetch, decode, decoded, exec_step, performance_and_sync_update,
  after_step, finish_step, run_step,
}
use dse_vp.Core.Exec.Keeps.{
  IsSound, HasEven, Leaves, Keeps, KeepsEntry-or_else, KeepsEntry-elim, Keeps-bind, Keeps-if,
  gets-Keeps, pure-Keeps, raise_trap-Keeps,
}
use dse_vp.Core.Exec.Keeps.Registers.{require_isa-Keeps}
use dse_vp.Core.Exec.Keeps.Memory.{load_instr-Keeps}
use dse_vp.Core.Exec.Keeps.Instructions.{
  exec_value-Keeps, exec_custom-Keeps, exec_jump-Keeps, exec_branch-Keeps, exec_mul-Keeps,
  exec_return-Keeps,
}
use dse_vp.Core.Exec.Keeps.Accesses.{
  exec_store-Keeps, exec_load-Keeps, exec_csr-Keeps, exec_atomic-Keeps, exec_system-Keeps,
}

prepare_trap_even :
    (cast : ℕ → Option ℕ) (e : SimulationTrap) (h g : Hart) (mode : ℕ)
    → prepare_trap cast e h ≡ some (g, mode)
    → HasEven h
    → HasEven g
unfolding prepare_trap
prepare_trap_even cast e h g mode f v = ground arith

switch_even :
    (mode : ℕ) (h k : Hart) → switch_to_trap_handler mode h ≡ some k → HasEven h → HasEven k
unfolding switch_to_trap_handler
switch_even mode h k e v = ground arith

prepare_interrupt_even :
    (x : PendingInterrupts) (h k : Hart) → prepare_interrupt x h ≡ some k → HasEven h → HasEven k
unfolding prepare_interrupt
prepare_interrupt_even x h k e v = ground arith

module _ {M : Type 0} (bus : Bus M) where
  stop-Keeps : {A : Type 0} → Keeps {M = M} {A = A} stop
  stop-Keeps = record { leaves = λ s p. tt }

  exec_op-Keeps : (op : Mapping) (i : ℕ) → Keeps (exec_op bus op i)
  unfolding exec_op
  exec_op-Keeps op i =
      KeepsEntry-elim _ _
        (KeepsEntry-or_else _ _
          (KeepsEntry-or_else _ _
            (KeepsEntry-or_else _ _
              (KeepsEntry-or_else _ _
                (KeepsEntry-or_else _ _
                  (KeepsEntry-or_else _ _
                    (KeepsEntry-or_else _ _
                      (KeepsEntry-or_else _ _
                        (KeepsEntry-or_else _ _
                          (KeepsEntry-or_else _ _ (exec_value-Keeps M op i)
                            (exec_custom-Keeps M op i))
                          (exec_jump-Keeps M op i))
                        (exec_store-Keeps bus op i))
                      (exec_load-Keeps bus op i))
                    (exec_branch-Keeps M op i))
                  (exec_system-Keeps bus op i))
                (exec_csr-Keeps bus op i))
              (exec_mul-Keeps M op i))
            (exec_atomic-Keeps bus op i))
          (exec_return-Keeps M op i))
        (Keeps-if (is_rv64_only op) _ _ (raise_trap-Keeps illegal_instr i) stop-Keeps)

  fetch-Keeps : Keeps (fetch bus)
  unfolding fetch
  fetch-Keeps = record {
    leaves = λ s p. let leaves = (load_instr-Keeps bus s.hart.pc).leaves s p in ground arith;
  }

  decoded-Keeps :
      (op : Mapping) (instr size : ℕ) → size % 2 ≡ 0 → Keeps (modify (decoded bus op instr size))
  decoded-Keeps op instr size e = record { leaves = λ s p. ground arith }

  compressed_Keeps :
      (o : Option (Mapping × ℕ))
      → Keeps {M = M} {A = Unit {0}} (elim o [
        | none ↦ stop
        | some (op, instr) ↦ do
          modify (decoded bus op instr 2)
          if is_undef op then pure tt else require_isa instr (2 ^ 2)
      ])
  compressed_Keeps none = stop-Keeps
  compressed_Keeps (some (op, instr)) =
      Keeps-bind _ _ (decoded-Keeps op instr 2 refl)
        (λ _. Keeps-if (is_undef op) _ _ (pure-Keeps tt) (require_isa-Keeps instr (2 ^ 2)))

  decode-Keeps : (w : ℕ) → Keeps (decode bus w)
  unfolding decode
  decode-Keeps w = Keeps-if (is_custom w) _ _ (decoded-Keeps _ _ 4 refl) (
      Keeps-if (is_compressed w) _ _
        (compressed_Keeps (decode_and_expand_compressed Architecture.rv32 w))
        (decoded-Keeps _ _ 4 refl))

  exec_step-Keeps : Keeps (exec_step bus)
  unfolding exec_step
  exec_step-Keeps = Keeps-bind _ _ (gets-Keeps λ s. s) (λ s.
      Keeps-bind _ _
        (Keeps-if (bit_and s.hart.pc (not32 (pc_alignment_mask s)) == 0) _ _ (pure-Keeps tt)
          stop-Keeps)
        (λ _. Keeps-bind _ _ fetch-Keeps (λ w. Keeps-bind _ _ (decode-Keeps w) (λ _.
          Keeps-bind _ _ (gets-Keeps λ t. t.op)
            (λ op. Keeps-bind _ _ (gets-Keeps λ t. t.instr) (λ instr. exec_op-Keeps op instr))))))

taken_even :
    (x : PendingInterrupts) (h k : Hart) (o : Option Hart)
    → prepare_interrupt x h ≡ o
    → (elim o [ none ↦ none | some g ↦ switch_to_trap_handler x.target_mode g ]) ≡ some k
    → HasEven h
    → HasEven k
taken_even x h k none q e v = cc e
taken_even x h k (some g) q e v = switch_even x.target_mode g k e (prepare_interrupt_even x h g q v)

chosen_even :
    (b : Bool) (h k : Hart) (o : Option Hart)
    → (if b then some h else o) ≡ some k
    → (o ≡ some k → HasEven k)
    → HasEven h
    → HasEven k
chosen_even true h k o e f v = let same : h ≡ k = cc e in subst HasEven same v
chosen_even false h k o e f v = f e

take_interrupt_even : (h k : Hart) → take_interrupt h ≡ some k → HasEven h → HasEven k
unfolding take_interrupt
take_interrupt_even h k e v =
    let x = compute_pending_interrupts h in
    chosen_even (x.target_mode == none_mode) h k _ e (λ f. taken_even x h k _ refl f v) v

trapped_even :
    (cast : ℕ → Option ℕ) (x : SimulationTrap) (h k : Hart) (o : Option (Hart × ℕ))
    → prepare_trap cast x h ≡ o
    → (elim o [ none ↦ none | some (g, mode) ↦ switch_to_trap_handler mode g ]) ≡ some k
    → HasEven h
    → HasEven k
trapped_even cast x h k none q e v = cc e
trapped_even cast x h k (some (g, mode)) q e v =
    switch_even mode g k e (prepare_trap_even cast x h g mode q v)

take_trap_even :
    (cast : ℕ → Option ℕ) (x : SimulationTrap) (h k : Hart)
    → take_trap cast x h ≡ some k
    → HasEven h
    → HasEven k
unfolding take_trap
take_trap_even cast x h k e v = trapped_even cast x h k _ refl e v

module _ {M : Type 0} where
  update-IsSound : (s : Iss M) → IsSound s → IsSound (performance_and_sync_update s)
  unfolding performance_and_sync_update
  update-IsSound s p = ground arith

  -- A state between two steps.
  pub record IsReady (s : Iss M) : Type 0 where
    pub sound : IsSound s
    pub zero_reset : s.regs 0 ≡ 0

  finish_step-IsReady : (s : Iss M) → IsSound s → IsReady (finish_step s)
  unfolding finish_step performance_and_sync_update
  finish_step-IsReady s p = ground (arith, update-IsSound s p)

  lifted-IsSound :
      (o : Option Hart) (s t : Iss M)
      → (elim o [ none ↦ none | some h ↦ some (record s { hart = h }) ]) ≡ some t
      → IsSound s
      → ((h : Hart) → o ≡ some h → HasEven h)
      → IsSound t
  lifted-IsSound none s t e p f = cc e
  lifted-IsSound (some h) s t e p f =
      let same : record s { hart = h } ≡ t = cc e in
      subst IsSound same (record { regs_word = p.regs_word; even = f h refl })

  after_step-IsSound :
      (cast : ℕ → Option ℕ) (o : Outcome (Iss M) (Unit {0})) (t : Iss M)
      → Leaves IsSound o
      → after_step cast o ≡ some t
      → IsSound t
  unfolding after_step
  after_step-IsSound cast (done a s) t p e =
      lifted-IsSound (take_interrupt s.hart) s t e p (λ h q. take_interrupt_even s.hart h q p.even)
  after_step-IsSound cast (trapped x s) t p e =
      lifted-IsSound (take_trap cast x s.hart) s t e p
        (λ h q. take_trap_even cast x s.hart h q p.even)
  after_step-IsSound cast stopped t p e = cc e

  finished :
      (o : Option (Iss M)) (t : Iss M)
      → (elim o [ none ↦ none | some s ↦ some (finish_step s) ]) ≡ some t
      → ((s : Iss M) → o ≡ some s → IsSound s)
      → IsReady t
  finished none t e f = cc e
  finished (some s) t e f =
      let same : finish_step s ≡ t = cc e in subst IsReady same (finish_step-IsReady s (f s refl))

  stopped_at :
      (a b : Bool) (s t : Iss M) (o : Option (Iss M))
      → (if not a then none else if b then some s else o) ≡ some t
      → IsReady s
      → (o ≡ some t → IsReady t)
      → IsReady t
  stopped_at false b s t o e r f = cc e
  stopped_at true true s t o e r f = let same : s ≡ t = cc e in subst IsReady same r
  stopped_at true false s t o e r f = f e

  aligned : (s : Iss M) → IsSound s → bit_and s.hart.pc (not32 (pc_alignment_mask s)) ≡ 0
  unfolding pc_alignment_mask
  aligned s p = rw p.even.has_c (omega (arith, and_low 1 s.hart.pc, p.even.pc_even))

-- Every step of the simulation that returns keeps the state ready for the next one: the registers
-- hold 32-bit words, the register `zero` holds 0, as the next step asserts, and the pc and the three
-- exception program counters are even, so that the assertion of `exec_step` on the pc holds, which
-- the processor with compressed instructions tests with the mask `~1`. The step includes fetch,
-- decoding, the instruction, and the trap or interrupt that follows it.
pub run_step-IsReady :
    {M : Type 0} (bus : Bus M) (cast : ℕ → Option ℕ) (s t : Iss M)
    → IsReady s
    → run_step bus cast s ≡ some t
    → IsReady t × (bit_and t.hart.pc (not32 (pc_alignment_mask t)) ≡ 0)
unfolding run_step
run_step-IsReady bus cast s t r e =
    let begun = record s { hart = record s.hart { last_pc = s.hart.pc } } in
    let p : IsSound begun = ground (arith, r.sound) in
    let ready =
      stopped_at (s.regs 0 == 0) (s.debug_mode && s.breakpoints s.hart.pc)
        (record s { status = Status.hit_breakpoint }) t _ e (ground (arith, r.sound))
        (λ f. finished _ t f (λ u q.
          after_step-IsSound cast (exec_step bus begun) u ((exec_step-Keeps bus).leaves begun p)
            q)) in
    (ready, aligned t ready.sound)
