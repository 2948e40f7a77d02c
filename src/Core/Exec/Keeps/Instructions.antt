-- ===== src/Core/Exec/Keeps/Instructions.antt =====
-- Every instruction keeps the condition on the state.
use dse_vp.Base.{
  ℕ, ◌%◌, ◌^◌, ◌≡◌, inl, inr, Bool, not, ◌&&◌, ◌||◌, Option, none, some, arith, not32, add32,
  bit_and_lowest, Option-cases, if◌then◌else◌, ◌==◌,
}
use dse_vp.Core.Trap.{
  Hart, return_from_trap_handler, has_extension, has_user_mode_extension, machine_mode,
  supervisor_mode, user_mode,
}
use dse_vp.Core.Opcode.{Mapping}
use dse_vp.Core.Instr.{rd, rs1, rs2, b_imm, i_imm}
use dse_vp.Core.Instr.Fields.Parity.{j_imm_even, b_imm_even}
use dse_vp.Core.Exec.{Iss, done, ◌>>◌, pure}
use dse_vp.Core.Exec.Operands.{
  Value, imm_value, reg_value, shift_value, nice_value, branch_taken, mul_value,
}
use dse_vp.Core.Exec.Csr.Access.{illegal_instr, require_isa}
use dse_vp.Core.Exec.Step.{
  ◌or_else◌, set_pc, write_rd, jump, branch, trap_check_pc_alignment, on_hart, exec_value,
  exec_custom, exec_jump, exec_branch, exec_mul, exec_return,
}
use dse_vp.Core.Exec.Keeps.{
  IsSound, HasEven, Leaves, Keeps, KeepsEntry, Keeps-bind, Leaves-if, gets-Keeps, trap_if-Keeps,
  set_reg-Keeps,
}
use dse_vp.Core.Exec.Keeps.Registers.{require_isa-Keeps}

module _ (M : Type 0) where
  write_rd-Keeps : (i : ℕ) (f : Value) → Keeps {M = M} (write_rd i f)
  write_rd-Keeps i f = record {
    leaves = λ s p. (set_reg-Keeps (rd i) (f s.regs s.hart.last_pc)).leaves s p;
  }

  value_entry :
      (i : ℕ) (o : Option Value)
      → KeepsEntry {M = M} (elim o [ some f ↦ some (write_rd i f) | none ↦ none ])
  value_entry i none = tt
  value_entry i (some f) = write_rd-Keeps i f

  pub exec_value-Keeps : (op : Mapping) (i : ℕ) → KeepsEntry {M = M} (exec_value op i)
  unfolding exec_value
  exec_value-Keeps op i =
      value_entry i (imm_value op i or_else reg_value op i or_else shift_value op i)

  custom_entry :
      (i : ℕ) (o : Option Value)
      → KeepsEntry {M = M} (elim o [ some f ↦ some (write_rd i f) | none ↦ some (pure tt) ])
  custom_entry i none = record { leaves = λ s p. p }
  custom_entry i (some f) = write_rd-Keeps i f

  pub exec_custom-Keeps : (op : Mapping) (i : ℕ) → KeepsEntry {M = M} (exec_custom op i)
  unfolding exec_custom
  exec_custom-Keeps Mapping.custom3 i = custom_entry i (nice_value i)
  exec_custom-Keeps op i = tt

  mul_entry :
      (i : ℕ) (o : Option (ℕ → ℕ → ℕ))
      → KeepsEntry {M = M} (elim o [
        | none ↦ none
        | some f ↦
            some (do
              require_isa i (2 ^ 12)
              write_rd i λ regs last_pc. f (regs (rs1 i)) (regs (rs2 i)))
      ])
  mul_entry i none = tt
  mul_entry i (some f) = Keeps-bind _ _ (require_isa-Keeps i (2 ^ 12)) (λ _. write_rd-Keeps i _)

  pub exec_mul-Keeps : (op : Mapping) (i : ℕ) → KeepsEntry {M = M} (exec_mul op i)
  unfolding exec_mul
  exec_mul-Keeps op i = mul_entry i (mul_value op)

  check_alignment-Keeps : Keeps {M = M} trap_check_pc_alignment
  unfolding trap_check_pc_alignment
  check_alignment-Keeps = record { leaves = λ s p. ground arith }

  pub set_pc-IsSound : (v : ℕ) (s : Iss M) → v % 2 ≡ 0 → IsSound s → IsSound (set_pc v s)
  set_pc-IsSound v s e p = ground arith

  jump-Keeps :
      (i : ℕ) (target : Iss M → ℕ)
      → ((s : Iss M) → IsSound s → target s % 2 ≡ 0)
      → Keeps (jump i target)
  jump-Keeps i target e = record {
    leaves = λ s p.
        (Keeps-bind _ _ check_alignment-Keeps (λ _. set_reg-Keeps (rd i) s.hart.pc)).leaves
          (set_pc (target s) s) (set_pc-IsSound (target s) s (e s p) p);
  }

  pub exec_jump-Keeps : (op : Mapping) (i : ℕ) → KeepsEntry {M = M} (exec_jump op i)
  unfolding exec_jump
  exec_jump-Keeps Mapping.jal i =
      jump-Keeps i _ (λ s p. omega (arith, j_imm_even i, p.even.last_pc_even))
  exec_jump-Keeps Mapping.jalr i =
      jump-Keeps i _
        (λ s p. omega (arith, bit_and_lowest (add32 (s.regs (rs1 i)) (i_imm i)) (not32 1)))
  exec_jump-Keeps op i = tt

  branch-Keeps : (i : ℕ) → Keeps {M = M} (branch i)
  branch-Keeps i = record {
    leaves = λ s p.
        check_alignment-Keeps.leaves (set_pc (add32 s.hart.last_pc (b_imm i)) s)
          (set_pc-IsSound _ s (omega (arith, b_imm_even i, p.even.last_pc_even)) p);
  }

  branch_entry :
      (i : ℕ) (o : Option (ℕ → ℕ → Bool))
      → KeepsEntry {M = M} (elim o [
        | none ↦ none
        | some taken ↦
            some (λ s. if taken (s.regs (rs1 i)) (s.regs (rs2 i)) then branch i s else done tt s)
      ])
  branch_entry i none = tt
  branch_entry i (some taken) = record {
    leaves = λ s p.
        Leaves-if (taken (s.regs (rs1 i)) (s.regs (rs2 i))) _ _ ((branch-Keeps i).leaves s p) p;
  }

  pub exec_branch-Keeps : (op : Mapping) (i : ℕ) → KeepsEntry {M = M} (exec_branch op i)
  unfolding exec_branch
  exec_branch-Keeps op i = branch_entry i (branch_taken op)

  on_hart-Keeps :
      (f : Hart → Option Hart)
      → ((h k : Hart) → f h ≡ some k → HasEven h → HasEven k)
      → Keeps {M = M} (on_hart f)
  on_hart-Keeps f e = record {
    leaves = λ s p. elim (Option-cases (f s.hart)) [
      | inl q ↦ rw (Leaves, q) tt
      | inr (k, q) ↦ rw (Leaves, q) (record { regs_word = p.regs_word; even = e s.hart k q p.even })
    ];
  }

  return_even :
      (mode : ℕ) (h k : Hart) → return_from_trap_handler mode h ≡ some k → HasEven h → HasEven k
  unfolding return_from_trap_handler
  return_even mode h k e v = ground arith

  pub exec_return-Keeps : (op : Mapping) (i : ℕ) → KeepsEntry {M = M} (exec_return op i)
  unfolding exec_return
  exec_return-Keeps Mapping.uret i = Keeps-bind _ _ (gets-Keeps λ s. s.hart.csrs) (λ c.
      Keeps-bind _ _ (trap_if-Keeps (not (has_user_mode_extension c)) illegal_instr i)
        (λ _. on_hart-Keeps _ (return_even user_mode)))
  exec_return-Keeps Mapping.sret i = Keeps-bind _ _ (gets-Keeps λ s. s.hart.csrs) (λ c.
      Keeps-bind _ _ (gets-Keeps λ s. s.hart.prv) (λ prv.
        Keeps-bind _ _
          (trap_if-Keeps (not (has_extension (2 ^ 18) c) || prv == supervisor_mode && c.mstatus.tsr)
            illegal_instr i)
          (λ _. on_hart-Keeps _ (return_even supervisor_mode))))
  exec_return-Keeps Mapping.mret i = on_hart-Keeps _ (return_even machine_mode)
  exec_return-Keeps op i = tt
