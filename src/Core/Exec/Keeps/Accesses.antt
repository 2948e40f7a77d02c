-- ===== src/Core/Exec/Keeps/Accesses.antt =====
-- The instructions that access memory or the control and status registers keep the condition on the
-- state.
use dse_vp.Base.{
  ℕ, ◌%◌, ◌^◌, ◌≡◌, refl, Bool, true, not, ◌&&◌, Option, none, some, arith, bit_and, bit_or, not32,
  add32, if◌then◌else◌, ◌==◌,
}
use dse_vp.Core.Trap.{has_extension, supervisor_mode, user_mode}
use dse_vp.Core.Opcode.{Mapping}
use dse_vp.Core.Instr.{rd, rs1, rs2, i_imm, s_imm, csr, zimm}
use dse_vp.Core.Exec.{Iss, Bus, Exec, ◌>>=◌, ◌>>◌, modify, set_reg, load_data, store_data}
use dse_vp.Core.Exec.Operands.{amo_value}
use dse_vp.Core.Exec.Csr.Access.{illegal_instr, require_isa}
use dse_vp.Core.Exec.Step.{
  reg, trap_check_addr_alignment, csr_write, csr_modify, as_store_fault, release_lr_sc_reservation,
  execute_amo, exec_ecall, exec_store, exec_load, exec_csr, exec_atomic, exec_system, store_size,
  load_kind,
}
use dse_vp.Core.Exec.Keeps.{
  Keeps, KeepsEntry, Keeps-bind, gets-Keeps, Keeps-if, trap_if-Keeps, set_reg-Keeps, pure-Keeps,
  raise_trap-Keeps,
}
use dse_vp.Core.Exec.Keeps.Registers.{
  require_isa-Keeps, is_invalid_csr_access-Keeps, get_csr_value-Keeps, set_csr_value-Keeps,
}
use dse_vp.Core.Exec.Keeps.Memory.{
  load_data-Keeps, store_data-Keeps, atomic_load_word-Keeps, atomic_store_word-Keeps,
  atomic_load_reserved_word-Keeps, atomic_store_conditional_word-Keeps,
}

module _ {M : Type 0} (bus : Bus M) where
  exec_ecall-Keeps : Keeps {M = M} exec_ecall
  unfolding exec_ecall
  exec_ecall-Keeps = record { leaves = λ s p. ground arith }

  store_entry :
      (i : ℕ) (o : Option ℕ)
      → KeepsEntry {M = M} (elim o [
        | none ↦ none
        | some n ↦ some (do
          a ← reg (rs1 i)
          trap_check_addr_alignment n 6 (add32 a (s_imm i))
          v ← reg (rs2 i)
          store_data bus n (add32 a (s_imm i)) v)
      ])
  store_entry i none = tt
  store_entry i (some n) = Keeps-bind _ _ (gets-Keeps λ s. s.regs (rs1 i)) (λ a.
      Keeps-bind _ _ (trap_if-Keeps (not (add32 a (s_imm i) % n == 0)) 6 (add32 a (s_imm i))) (λ _.
        Keeps-bind _ _ (gets-Keeps λ s. s.regs (rs2 i))
          (λ v. store_data-Keeps bus n (add32 a (s_imm i)) v)))

  pub exec_store-Keeps : (op : Mapping) (i : ℕ) → KeepsEntry (exec_store bus op i)
  unfolding exec_store
  exec_store-Keeps op i = store_entry i (store_size op)

  load_entry :
      (i : ℕ) (o : Option (ℕ × (ℕ → ℕ)))
      → KeepsEntry {M = M} (elim o [
        | none ↦ none
        | some (n, extend) ↦ some (do
          a ← reg (rs1 i)
          trap_check_addr_alignment n 4 (add32 a (i_imm i))
          v ← load_data bus n (add32 a (i_imm i))
          set_reg (rd i) (extend v))
      ])
  load_entry i none = tt
  load_entry i (some (n, extend)) = Keeps-bind _ _ (gets-Keeps λ s. s.regs (rs1 i)) (λ a.
      Keeps-bind _ _ (trap_if-Keeps (not (add32 a (i_imm i) % n == 0)) 4 (add32 a (i_imm i))) (λ _.
        Keeps-bind _ _ (load_data-Keeps bus n (add32 a (i_imm i)))
          (λ v. set_reg-Keeps (rd i) (extend v))))

  pub exec_load-Keeps : (op : Mapping) (i : ℕ) → KeepsEntry (exec_load bus op i)
  unfolding exec_load
  exec_load-Keeps op i = load_entry i (load_kind op)

  csr_write-Keeps : (i v : ℕ) → Keeps (csr_write bus i v)
  csr_write-Keeps i v = Keeps-bind _ _ (is_invalid_csr_access-Keeps i (csr i) true) (λ invalid.
      Keeps-if invalid _ _ (raise_trap-Keeps _ _) (
        Keeps-bind _ _
          (Keeps-if (rd i == 0) _ _ (pure-Keeps tt)
            (Keeps-bind _ _ (get_csr_value-Keeps bus i (csr i)) (λ old. set_reg-Keeps (rd i) old)))
          (λ _. set_csr_value-Keeps bus i (csr i) v)))

  csr_modify-Keeps : (i : ℕ) (is_write : Bool) (f : ℕ → ℕ) → Keeps (csr_modify bus i is_write f)
  csr_modify-Keeps i is_write f =
      Keeps-bind _ _ (is_invalid_csr_access-Keeps i (csr i) is_write) (λ invalid.
        Keeps-if invalid _ _ (raise_trap-Keeps _ _) (
          Keeps-bind _ _ (get_csr_value-Keeps bus i (csr i)) (λ old.
            Keeps-bind _ _ (Keeps-if (rd i == 0) _ _ (pure-Keeps tt) (set_reg-Keeps (rd i) old))
              (λ _.
                Keeps-if is_write _ _ (set_csr_value-Keeps bus i (csr i) (f old))
                  (pure-Keeps tt)))))

  pub exec_csr-Keeps : (op : Mapping) (i : ℕ) → KeepsEntry (exec_csr bus op i)
  unfolding exec_csr
  exec_csr-Keeps Mapping.csrrw i =
      Keeps-bind _ _ (gets-Keeps λ s. s.regs (rs1 i)) (λ v. csr_write-Keeps i v)
  exec_csr-Keeps Mapping.csrrs i =
      Keeps-bind _ _ (gets-Keeps λ s. s.regs (rs1 i))
        (λ v. csr_modify-Keeps i (not (rs1 i == 0)) (λ old. bit_or old v))
  exec_csr-Keeps Mapping.csrrc i =
      Keeps-bind _ _ (gets-Keeps λ s. s.regs (rs1 i))
        (λ v. csr_modify-Keeps i (not (rs1 i == 0)) (λ old. bit_and old (not32 v)))
  exec_csr-Keeps Mapping.csrrwi i = csr_write-Keeps i (zimm i)
  exec_csr-Keeps Mapping.csrrsi i = csr_modify-Keeps i _ _
  exec_csr-Keeps Mapping.csrrci i = csr_modify-Keeps i _ _
  exec_csr-Keeps op i = tt

  as_store_fault-Keeps : (m : Exec M ℕ) → Keeps m → Keeps (as_store_fault bus m)
  as_store_fault-Keeps m h = record { leaves = λ s p. let leaves = h.leaves s p in ground arith }

  execute_amo-Keeps : (i : ℕ) (operation : ℕ → ℕ → ℕ) → Keeps (execute_amo bus i operation)
  unfolding execute_amo
  execute_amo-Keeps i operation = Keeps-bind _ _ (gets-Keeps λ s. s.regs (rs1 i)) (λ addr.
      Keeps-bind _ _ (trap_if-Keeps (not (addr % 4 == 0)) 6 addr) (λ _.
        Keeps-bind _ _ (as_store_fault-Keeps _ (atomic_load_word-Keeps bus addr)) (λ old.
          Keeps-bind _ _ (gets-Keeps λ s. s.regs (rs2 i)) (λ b.
            Keeps-bind _ _ (atomic_store_word-Keeps bus addr (operation old b))
              (λ _. set_reg-Keeps (rd i) old)))))

  amo_entry :
      (i : ℕ) (o : Option (ℕ → ℕ → ℕ))
      → KeepsEntry {M = M} (elim o [
        | none ↦ none
        | some operation ↦ some (do require_isa i 1; execute_amo bus i operation)
      ])
  amo_entry i none = tt
  amo_entry i (some operation) =
      Keeps-bind _ _ (require_isa-Keeps i 1) (λ _. execute_amo-Keeps i operation)

  set_counter-Keeps :
      Keeps {M = M} (modify λ s. record s { hart = record s.hart { lr_sc_counter = 0 } })
  set_counter-Keeps = record { leaves = λ s p. ground arith }

  start_counter-Keeps : Keeps {M = M} (
      modify λ s.
        if s.hart.lr_sc_counter == 0
        then record s { hart = record s.hart { lr_sc_counter = 17 } }
        else s)
  start_counter-Keeps = record { leaves = λ s p. ground arith }

  pub exec_atomic-Keeps : (op : Mapping) (i : ℕ) → KeepsEntry (exec_atomic bus op i)
  unfolding exec_atomic
  exec_atomic-Keeps Mapping.lr_w i = Keeps-bind _ _ (require_isa-Keeps i 1) (λ _.
      Keeps-bind _ _ (gets-Keeps λ s. s.regs (rs1 i)) (λ addr.
        Keeps-bind _ _ (trap_if-Keeps (not (addr % 4 == 0)) 4 addr) (λ _.
          Keeps-bind _ _ (atomic_load_reserved_word-Keeps bus addr)
            (λ v. Keeps-bind _ _ (set_reg-Keeps (rd i) v) (λ _. start_counter-Keeps)))))
  exec_atomic-Keeps Mapping.sc_w i = Keeps-bind _ _ (require_isa-Keeps i 1) (λ _.
      Keeps-bind _ _ (gets-Keeps λ s. s.regs (rs1 i)) (λ addr.
        Keeps-bind _ _ (trap_if-Keeps (not (addr % 4 == 0)) 6 addr) (λ _.
          Keeps-bind _ _ (gets-Keeps λ s. s.regs (rs2 i)) (λ val.
            Keeps-bind _ _ (set_reg-Keeps (rd i) 1) (λ _.
              Keeps-bind _ _ (atomic_store_conditional_word-Keeps bus addr val) (λ stored.
                Keeps-bind _ _ (set_reg-Keeps (rd i) (if stored then 0 else 1))
                  (λ _. set_counter-Keeps)))))))
  exec_atomic-Keeps op i = amo_entry i (amo_value op)

  release-Keeps : Keeps {M = M} (modify release_lr_sc_reservation)
  release-Keeps = record { leaves = λ s p. ground arith }

  same_hart-Keeps :
      (f : Iss M → Iss M)
      → ((s : Iss M) → (f s).hart ≡ s.hart)
      → ((s : Iss M) → (f s).regs ≡ s.regs)
      → Keeps {M = M} (modify f)
  same_hart-Keeps f h r = record {
    leaves = λ s p. record { regs_word = λ k. rw (r s) (p.regs_word k); even = rw (h s) p.even };
  }

  pub exec_system-Keeps : (op : Mapping) (i : ℕ) → KeepsEntry (exec_system bus op i)
  unfolding exec_system
  exec_system-Keeps Mapping.undef i = record { leaves = λ s p. p }
  exec_system-Keeps Mapping.fence i = record { leaves = λ s p. p }
  exec_system-Keeps Mapping.fence_i i = record { leaves = λ s p. p }
  exec_system-Keeps Mapping.ecall i = exec_ecall-Keeps
  exec_system-Keeps Mapping.ebreak i = same_hart-Keeps _ (λ s. refl) (λ s. refl)
  exec_system-Keeps Mapping.wfi i = Keeps-bind _ _ release-Keeps (λ _.
      Keeps-bind _ _ (gets-Keeps λ s. s.hart.csrs) (λ c.
        Keeps-bind _ _ (gets-Keeps λ s. s.hart.prv) (λ prv.
          Keeps-bind _ _ (trap_if-Keeps (prv == supervisor_mode && c.mstatus.tw) illegal_instr i)
            (λ _. trap_if-Keeps (prv == user_mode && has_extension (2 ^ 18) c) illegal_instr i))))
  exec_system-Keeps Mapping.sfence_vma i = Keeps-bind _ _ (gets-Keeps λ s. s.hart.csrs) (λ c.
      Keeps-bind _ _ (gets-Keeps λ s. s.hart.prv) (λ prv.
        Keeps-bind _ _ (trap_if-Keeps (prv == supervisor_mode && c.mstatus.tvm) illegal_instr i)
          (λ _. same_hart-Keeps _ (λ s. refl) (λ s. refl))))
  exec_system-Keeps op i = tt
