-- ===== src/Core/Exec/Step/Run.antt =====
-- One step of the simulation: `ISS::exec_step`, `performance_and_sync_update`, `run_step` and `run` of
-- vp/src/core/rv32/iss.cpp, with the table `instr_cycles`. An instruction word for which no table has
-- an entry stops the model: those are the instructions of the floating-point extensions, and what
-- the source calls an unknown opcode. The synchronisation of the simulation time is left out.
use dse_vp.Base.{
  ℕ, zero, suc, ◌+◌, ◌-◌, ◌%◌, ◌^◌, Bool, true, false, not, ◌&&◌, Option, none, some, bit_and, ◌==◌,
  if◌then◌else◌, not32, add32,
}
use dse_vp.Core.Trap.{take_interrupt, take_trap}
use dse_vp.Core.Opcode.{Mapping}
use dse_vp.Core.Instr.{is_custom, is_compressed}
use dse_vp.Core.Instr.Decode.{Architecture}
use dse_vp.Core.Instr.Decode.All.{decode_normal}
use dse_vp.Core.Instr.Expand.{decode_and_expand_compressed}
use dse_vp.Core.Exec.{
  Iss, Bus, Exec, Outcome, done, trapped, stopped, Status, pure, ◌>>=◌, ◌>>◌, raise_trap, stop,
  modify, gets, load_instr,
}
use dse_vp.Core.Exec.Csr.Access.{illegal_instr, require_isa, pc_alignment_mask}
use dse_vp.Core.Exec.Step.{
  ◌or_else◌, release_lr_sc_reservation, exec_value, exec_custom, exec_jump, exec_branch, exec_mul,
  exec_return, exec_store, exec_load, exec_csr, exec_atomic, exec_system,
}

-- The opcodes of the 64-bit instructions, which are illegal here.
unfoldable pub is_rv64_only : Mapping → Bool
is_rv64_only Mapping.lwu = true
is_rv64_only Mapping.ld = true
is_rv64_only Mapping.sd = true
is_rv64_only Mapping.addiw = true
is_rv64_only Mapping.slliw = true
is_rv64_only Mapping.srliw = true
is_rv64_only Mapping.sraiw = true
is_rv64_only Mapping.addw = true
is_rv64_only Mapping.subw = true
is_rv64_only Mapping.sllw = true
is_rv64_only Mapping.srlw = true
is_rv64_only Mapping.sraw = true
is_rv64_only Mapping.mulw = true
is_rv64_only Mapping.divw = true
is_rv64_only Mapping.divuw = true
is_rv64_only Mapping.remw = true
is_rv64_only Mapping.remuw = true
is_rv64_only Mapping.lr_d = true
is_rv64_only Mapping.sc_d = true
is_rv64_only Mapping.amoswap_d = true
is_rv64_only Mapping.amoadd_d = true
is_rv64_only Mapping.amoxor_d = true
is_rv64_only Mapping.amoand_d = true
is_rv64_only Mapping.amoor_d = true
is_rv64_only Mapping.amomin_d = true
is_rv64_only Mapping.amomax_d = true
is_rv64_only Mapping.amominu_d = true
is_rv64_only Mapping.amomaxu_d = true
is_rv64_only Mapping.fcvt_l_s = true
is_rv64_only Mapping.fcvt_lu_s = true
is_rv64_only Mapping.fcvt_s_l = true
is_rv64_only Mapping.fcvt_s_lu = true
is_rv64_only Mapping.fcvt_l_d = true
is_rv64_only Mapping.fcvt_lu_d = true
is_rv64_only Mapping.fmv_x_d = true
is_rv64_only Mapping.fcvt_d_l = true
is_rv64_only Mapping.fcvt_d_lu = true
is_rv64_only Mapping.fmv_d_x = true
is_rv64_only _ = false

abbrev pub is_undef : Mapping → Bool
is_undef Mapping.undef = true
is_undef _ = false

unfoldable pub instr_cycles : Mapping → ℕ
instr_cycles Mapping.lb = 4
instr_cycles Mapping.lbu = 4
instr_cycles Mapping.lh = 4
instr_cycles Mapping.lhu = 4
instr_cycles Mapping.lw = 4
instr_cycles Mapping.sb = 4
instr_cycles Mapping.sh = 4
instr_cycles Mapping.sw = 4
instr_cycles Mapping.mul = 8
instr_cycles Mapping.mulh = 8
instr_cycles Mapping.mulhu = 8
instr_cycles Mapping.mulhsu = 8
instr_cycles Mapping.div = 8
instr_cycles Mapping.divu = 8
instr_cycles Mapping.rem = 8
instr_cycles Mapping.remu = 8
instr_cycles _ = 1

module _ {M : Type 0} where
  unfoldable pub performance_and_sync_update : Iss M → Iss M
  performance_and_sync_update s =
      let mcountinhibit = s.words 0x320 in
      let counted = record s {
        total_num_instr = (s.total_num_instr + 1) % 2 ^ 64;
        instret = if bit_and mcountinhibit 4 == 0 then (s.instret + 1) % 2 ^ 64 else s.instret;
        cycle_counter =
            if bit_and mcountinhibit 1 == 0
            then s.cycle_counter + instr_cycles s.op
            else s.cycle_counter;
      } in
      if s.hart.lr_sc_counter == 0
      then counted
      else if s.hart.lr_sc_counter == 1
      then release_lr_sc_reservation counted
      else record counted { hart = record s.hart { lr_sc_counter = s.hart.lr_sc_counter - 1 } }

  -- What `run_step` does after the instruction, with the trap handler of the processor, which casts the trap's
  -- value.
  unfoldable pub after_step : (ℕ → Option ℕ) → Outcome (Iss M) (Unit {0}) → Option (Iss M)
  after_step cast (done _ s) = elim (take_interrupt s.hart) [
    | none ↦ none
    | some h ↦ some (record s { hart = h })
  ]
  after_step cast (trapped e s) = elim (take_trap cast e s.hart) [
    | none ↦ none
    | some h ↦ some (record s { hart = h })
  ]
  after_step cast stopped = none

  -- The register `zero` is reset, the processor may terminate, and the counters go on.
  unfoldable pub finish_step : Iss M → Iss M
  finish_step s =
      let reset = record s { regs = λ k. if k == 0 then 0 else s.regs k } in
      performance_and_sync_update
        (if s.shall_exit then record reset { status = Status.terminated } else reset)

module _ {M : Type 0} (bus : Bus M) where
  -- The switch on the opcode. A floating-point instruction, which is not modelled, stops like an
  -- unknown opcode, for which the source throws an error.
  unfoldable pub exec_op : Mapping → ℕ → Exec M (Unit {0})
  exec_op op i =
      elim (exec_value op i
        or_else exec_custom op i
        or_else exec_jump op i
        or_else exec_store bus op i
        or_else exec_load bus op i
        or_else exec_branch op i
        or_else exec_system bus op i
        or_else exec_csr bus op i
        or_else exec_mul op i
        or_else exec_atomic bus op i
        or_else exec_return op i) [
          | some m ↦ m
          | none ↦ if is_rv64_only op then raise_trap illegal_instr i else stop
        ]

  -- The fetch, which forgets the last instruction when it traps.
  unfoldable pub fetch : Exec M ℕ
  fetch s = elim (load_instr bus s.hart.pc s) [
    | done w t ↦ done w t
    | trapped e t ↦ trapped e (record t { op = Mapping.undef; instr = 0 })
    | stopped ↦ stopped
  ]

  abbrev pub decoded : Mapping → ℕ → ℕ → Iss M → Iss M
  decoded op instr size s = record s {
    op = op;
    instr = instr;
    hart = record s.hart { pc = add32 s.hart.pc size };
  }

  -- The decoder is called with the word, the pc goes on, and a compressed instruction requires its
  -- extension.
  unfoldable pub decode : ℕ → Exec M (Unit {0})
  decode w =
      if is_custom w
      then modify (decoded (decode_normal Architecture.rv32 w) w 4)
      else if is_compressed w
      then elim (decode_and_expand_compressed Architecture.rv32 w) [
        | none ↦ stop
        | some (op, instr) ↦ do
          modify (decoded op instr 2)
          if is_undef op then pure tt else require_isa instr (2 ^ 2)
      ]
      else modify (decoded (decode_normal Architecture.rv32 w) w 4)

  unfoldable pub exec_step : Exec M (Unit {0})
  exec_step = do
    s ← gets λ s. s
    (if bit_and s.hart.pc (not32 (pc_alignment_mask s)) == 0 then pure tt else stop)
    w ← fetch
    decode w
    op ← gets λ s. s.op
    instr ← gets λ s. s.instr
    exec_op op instr

  -- A hart with a value in the register `zero` violates an assertion.
  unfoldable pub run_step : (ℕ → Option ℕ) → Iss M → Option (Iss M)
  run_step cast s =
      if not (s.regs 0 == 0)
      then none
      else if s.debug_mode && s.breakpoints s.hart.pc
      then some (record s { status = Status.hit_breakpoint })
      else elim (after_step cast
          (exec_step (record s { hart = record s.hart { last_pc = s.hart.pc } }))) [
            | none ↦ none
            | some t ↦ some (finish_step t)
          ]

  abbrev is_runnable : Status → Bool
  is_runnable Status.runnable = true
  is_runnable _ = false

  -- `run`, for as many steps as the fuel allows.
  unfoldable pub run : (ℕ → Option ℕ) → ℕ → Iss M → Option (Iss M)
  run cast zero s = none
  run cast (suc n) s = elim (run_step cast s) [
    | none ↦ none
    | some t ↦ let rest = run cast n t in if is_runnable t.status then rest else some t
  ]
