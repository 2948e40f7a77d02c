-- ===== src/Core/Exec/Step.antt =====
-- The instructions: the cases of the switch in `ISS::exec_step` of vp/src/core/rv32/iss.cpp, with
-- the helpers of iss.h. A function of this file has an entry for the instructions that it names and
-- none for the others. The calls of the timing model are left out. There is no system call emulator
-- (`sys` is null), and a processor that waits for an interrupt goes on at once.
pub mod Run
use dse_vp.Base.{
  ℕ, ◌+◌, ◌-◌, ◌*◌, ◌/◌, ◌%◌, ◌^◌, Bool, true, false, not, ◌&&◌, ◌||◌, Option, none, some, bit_and,
  bit_or, ltb, ◌==◌, if◌then◌else◌, not32, add32,
}
use dse_vp.Core.Trap.{
  Hart, return_from_trap_handler, has_extension, has_user_mode_extension, machine_mode,
  supervisor_mode, user_mode,
}
use dse_vp.Core.Opcode.{Mapping}
use dse_vp.Core.Instr.{rd, rs1, rs2, i_imm, s_imm, b_imm, j_imm, csr, zimm}
use dse_vp.Core.Instr.Fields.{sign_extend}
use dse_vp.Core.Exec.{
  Iss, Bus, Exec, Outcome, done, trapped, stopped, Status, pure, ◌>>=◌, ◌>>◌, raise_trap, stop,
  modify, gets, trap_if, set_bus_lock, set_reg, load_data, store_data, atomic_load_word,
  atomic_store_word, atomic_load_reserved_word, atomic_store_conditional_word,
}
use dse_vp.Core.Exec.Operands.{
  Value, imm_value, reg_value, shift_value, nice_value, branch_taken, mul_value, amo_value,
}
use dse_vp.Core.Exec.Csr.Access.{
  illegal_instr, require_isa, is_invalid_csr_access, get_csr_value, set_csr_value,
}

-- The first entry of two tables.
infixl 3 ◌or_else◌
abbrev pub ◌or_else◌ {ℓ} : {A : Type ℓ} → Option A → Option A → Option A
none or_else b = b
some a or_else b = some a

module _ {M : Type 0} where
  abbrev pub reg : ℕ → Exec M ℕ
  reg k = gets λ s. s.regs k

  abbrev pub set_pc : ℕ → Iss M → Iss M
  set_pc v s = record s { hart = record s.hart { pc = v } }

  -- A pc that is odd violates an assertion.
  unfoldable pub trap_check_pc_alignment : Exec M (Unit {0})
  trap_check_pc_alignment s =
      let pc = s.hart.pc in
      if not (bit_and pc 1 == 0)
      then stopped
      else if not (bit_and pc 3 == 0) && not (has_extension (2 ^ 2) s.hart.csrs)
      then raise_trap 0 pc s
      else done tt s

  abbrev pub trap_check_addr_alignment : ℕ → ℕ → ℕ → Exec M (Unit {0})
  trap_check_addr_alignment n reason addr = trap_if (not (addr % n == 0)) reason addr

  abbrev pub write_rd : ℕ → Value → Exec M (Unit {0})
  write_rd i f s = set_reg (rd i) (f s.regs s.hart.last_pc) s

  unfoldable pub exec_value : Mapping → ℕ → Option (Exec M (Unit {0}))
  exec_value op i = elim (imm_value op i or_else reg_value op i or_else shift_value op i) [
    | some f ↦ some (write_rd i f)
    | none ↦ none
  ]

  unfoldable pub exec_custom : Mapping → ℕ → Option (Exec M (Unit {0}))
  exec_custom Mapping.custom3 i = elim (nice_value i) [
    | some f ↦ some (write_rd i f)
    | none ↦ some (pure tt)
  ]
  exec_custom _ i = none

  -- A jump, to a target that is read before the link is written.
  abbrev pub jump : ℕ → (Iss M → ℕ) → Exec M (Unit {0})
  jump i target = do
    link ← gets λ s. s.hart.pc
    modify λ s. set_pc (target s) s
    trap_check_pc_alignment
    set_reg (rd i) link

  unfoldable pub exec_jump : Mapping → ℕ → Option (Exec M (Unit {0}))
  exec_jump Mapping.jal i = some (jump i λ s. add32 s.hart.last_pc (j_imm i))
  exec_jump Mapping.jalr i = some (jump i λ s. bit_and (add32 (s.regs (rs1 i)) (i_imm i)) (not32 1))
  exec_jump _ i = none

  abbrev pub branch : ℕ → Exec M (Unit {0})
  branch i = do modify λ s. set_pc (add32 s.hart.last_pc (b_imm i)) s; trap_check_pc_alignment

  unfoldable pub exec_branch : Mapping → ℕ → Option (Exec M (Unit {0}))
  exec_branch op i = elim (branch_taken op) [
    | none ↦ none
    | some taken ↦
        some (λ s. if taken (s.regs (rs1 i)) (s.regs (rs2 i)) then branch i s else done tt s)
  ]

  unfoldable pub exec_mul : Mapping → ℕ → Option (Exec M (Unit {0}))
  exec_mul op i = elim (mul_value op) [
    | none ↦ none
    | some f ↦
        some (do require_isa i (2 ^ 12); write_rd i λ regs last_pc. f (regs (rs1 i)) (regs (rs2 i)))
  ]

  -- A part of the processor that has no result on an exception.
  abbrev pub on_hart : (Hart → Option Hart) → Exec M (Unit {0})
  on_hart f s = elim (f s.hart) [ none ↦ stopped | some h ↦ done tt (record s { hart = h }) ]

  abbrev pub release_lr_sc_reservation : Iss M → Iss M
  release_lr_sc_reservation s = record s {
    hart = record s.hart { lr_sc_counter = 0; bus_locked = false };
  }

  unfoldable pub exec_ecall : Exec M (Unit {0})
  exec_ecall s =
      let prv = s.hart.prv in
      if prv == machine_mode
      then raise_trap 11 s.hart.last_pc s
      else if prv == supervisor_mode
      then raise_trap 9 s.hart.last_pc s
      else if prv == user_mode
      then raise_trap 8 s.hart.last_pc s
      else stopped

  unfoldable pub exec_return : Mapping → ℕ → Option (Exec M (Unit {0}))
  exec_return Mapping.uret i = some (do
    c ← gets λ s. s.hart.csrs
    trap_if (not (has_user_mode_extension c)) illegal_instr i
    on_hart (return_from_trap_handler user_mode))
  exec_return Mapping.sret i = some (do
    c ← gets λ s. s.hart.csrs
    prv ← gets λ s. s.hart.prv
    trap_if (not (has_extension (2 ^ 18) c) || prv == supervisor_mode && c.mstatus.tsr)
        illegal_instr i
    on_hart (return_from_trap_handler supervisor_mode))
  exec_return Mapping.mret i = some (on_hart (return_from_trap_handler machine_mode))
  exec_return _ i = none

unfoldable pub store_size : Mapping → Option ℕ
store_size Mapping.sb = some 1
store_size Mapping.sh = some 2
store_size Mapping.sw = some 4
store_size _ = none

-- The bytes of a load, and the extension of what is loaded.
unfoldable pub load_kind : Mapping → Option (ℕ × (ℕ → ℕ))
load_kind Mapping.lb = some (1, sign_extend 8)
load_kind Mapping.lh = some (2, sign_extend 16)
load_kind Mapping.lw = some (4, λ v. v)
load_kind Mapping.lbu = some (1, λ v. v)
load_kind Mapping.lhu = some (2, λ v. v)
load_kind _ = none

module _ {M : Type 0} (bus : Bus M) where
  unfoldable pub exec_store : Mapping → ℕ → Option (Exec M (Unit {0}))
  exec_store op i = elim (store_size op) [
    | none ↦ none
    | some n ↦ some (do
      a ← reg (rs1 i)
      trap_check_addr_alignment n 6 (add32 a (s_imm i))
      v ← reg (rs2 i)
      store_data bus n (add32 a (s_imm i)) v)
  ]

  unfoldable pub exec_load : Mapping → ℕ → Option (Exec M (Unit {0}))
  exec_load op i = elim (load_kind op) [
    | none ↦ none
    | some (n, extend) ↦ some (do
      a ← reg (rs1 i)
      trap_check_addr_alignment n 4 (add32 a (i_imm i))
      v ← load_data bus n (add32 a (i_imm i))
      set_reg (rd i) (extend v))
  ]

  -- An access that is invalid is an illegal instruction.
  abbrev pub csr_access : ℕ → Bool → Exec M (Unit {0}) → Exec M (Unit {0})
  csr_access i is_write body = do
    invalid ← is_invalid_csr_access i (csr i) is_write
    if invalid then raise_trap illegal_instr i else body

  -- CSRRW and CSRRWI: the register is not read when its value is not kept.
  abbrev pub csr_write : ℕ → ℕ → Exec M (Unit {0})
  csr_write i v = csr_access i true (do
    (if rd i == 0 then pure tt else (do old ← get_csr_value bus i (csr i); set_reg (rd i) old))
    set_csr_value bus i (csr i) v)

  -- CSRRS, CSRRC and their forms with an immediate, which write only if `is_write`.
  abbrev pub csr_modify : ℕ → Bool → (ℕ → ℕ) → Exec M (Unit {0})
  csr_modify i is_write f = csr_access i is_write (do
    old ← get_csr_value bus i (csr i)
    (if rd i == 0 then pure tt else set_reg (rd i) old)
    (if is_write then set_csr_value bus i (csr i) (f old) else pure tt))

  unfoldable pub exec_csr : Mapping → ℕ → Option (Exec M (Unit {0}))
  exec_csr Mapping.csrrw i = some (do v ← reg (rs1 i); csr_write i v)
  exec_csr Mapping.csrrs i =
      some (do v ← reg (rs1 i); csr_modify i (not (rs1 i == 0)) λ old. bit_or old v)
  exec_csr Mapping.csrrc i =
      some (do v ← reg (rs1 i); csr_modify i (not (rs1 i == 0)) λ old. bit_and old (not32 v))
  exec_csr Mapping.csrrwi i = some (csr_write i (zimm i))
  exec_csr Mapping.csrrsi i = some (csr_modify i (not (zimm i == 0)) λ old. bit_or old (zimm i))
  exec_csr Mapping.csrrci i =
      some (csr_modify i (not (zimm i == 0)) λ old. bit_and old (not32 (zimm i)))
  exec_csr _ i = none

  -- The handler of `execute_amo` renames the access fault of a load.
  abbrev pub as_store_fault : Exec M ℕ → Exec M ℕ
  as_store_fault m s = elim (m s) [
    | done v t ↦ done v t
    | trapped e t ↦ trapped (if e.reason == 5 then record e { reason = 7 } else e) t
    | stopped ↦ stopped
  ]

  unfoldable pub execute_amo : ℕ → (ℕ → ℕ → ℕ) → Exec M (Unit {0})
  execute_amo i operation = do
    addr ← reg (rs1 i)
    trap_check_addr_alignment 4 6 addr
    old ← as_store_fault (atomic_load_word bus addr)
    b ← reg (rs2 i)
    atomic_store_word bus addr (operation old b)
    set_reg (rd i) old

  unfoldable pub exec_atomic : Mapping → ℕ → Option (Exec M (Unit {0}))
  exec_atomic Mapping.lr_w i = some (do
    require_isa i 1
    addr ← reg (rs1 i)
    trap_check_addr_alignment 4 4 addr
    v ← atomic_load_reserved_word bus addr
    set_reg (rd i) v
    modify λ s.
        if s.hart.lr_sc_counter == 0
        then record s { hart = record s.hart { lr_sc_counter = 17 } }
        else s)
  exec_atomic Mapping.sc_w i = some (do
    require_isa i 1
    addr ← reg (rs1 i)
    trap_check_addr_alignment 4 6 addr
    val ← reg (rs2 i)
    set_reg (rd i) 1
    stored ← atomic_store_conditional_word bus addr val
    set_reg (rd i) (if stored then 0 else 1)
    modify λ s. record s { hart = record s.hart { lr_sc_counter = 0 } })
  exec_atomic op i = elim (amo_value op) [
    | none ↦ none
    | some operation ↦ some (do require_isa i 1; execute_amo i operation)
  ]

  unfoldable pub exec_system : Mapping → ℕ → Option (Exec M (Unit {0}))
  exec_system Mapping.undef i = some (raise_trap illegal_instr i)
  exec_system Mapping.fence i = some (pure tt)
  exec_system Mapping.fence_i i = some (pure tt)
  exec_system Mapping.ecall i = some exec_ecall
  exec_system Mapping.ebreak i = some (modify λ s. record s { status = Status.hit_breakpoint })
  exec_system Mapping.wfi i = some (do
    modify release_lr_sc_reservation
    c ← gets λ s. s.hart.csrs
    prv ← gets λ s. s.hart.prv
    trap_if (prv == supervisor_mode && c.mstatus.tw) illegal_instr i
    trap_if (prv == user_mode && has_extension (2 ^ 18) c) illegal_instr i)
  exec_system Mapping.sfence_vma i = some (do
    c ← gets λ s. s.hart.csrs
    prv ← gets λ s. s.hart.prv
    trap_if (prv == supervisor_mode && c.mstatus.tvm) illegal_instr i
    modify λ s. record s { memory = bus.flush_tlb s.memory })
  exec_system op i = none
