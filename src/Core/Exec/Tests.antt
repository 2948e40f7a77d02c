-- ===== src/Core/Exec/Tests.antt =====
-- The processor with a flat memory, at concrete states.
use dse_vp.Base.{
  ℕ, zero, suc, ◌+◌, ◌*◌, ◌/◌, ◌%◌, ◌^◌, ◌≡◌, refl, true, false, none, some, ◌==◌, ◌-◌, ◌⊎◌, inl,
  bit_and, not32, if◌then◌else◌, arith,
}
use dse_vp.Tlm.{ok}
use dse_vp.Core.Opcode.{Mapping}
use dse_vp.Core.Mmu.{translated}
use dse_vp.Core.Exec.{Iss, Bus, Status, done}
use dse_vp.Core.Exec.{load_instr, v2p, raw_load_data}
use dse_vp.Core.Exec.Step.Run.{
  run_step, after_step, exec_step, fetch, decode, exec_op, finish_step, performance_and_sync_update,
}
use dse_vp.Core.Exec.Csr.Access.{pc_alignment_mask, set_csr_value}
use dse_vp.Core.Exec.Step.{exec_value, exec_csr}
use dse_vp.Core.Exec.Operands.{imm_value, div, rem, mul, mulh, mulhu, mulhsu}
use dse_vp.Core.Instr.{is_custom, opcode, is_compressed, quadrant, funct3, csr}
use dse_vp.Core.Instr.Decode.{match_instr, match_instr2, decode_op_imm}
use dse_vp.Core.Instr.Decode.All.{decode_normal}
use dse_vp.Core.Opcode.Masks.{mask, encoding}
use dse_vp.Core.Trap.{take_interrupt, compute_pending_interrupts}
use dse_vp.Core.Exec.Keeps.Steps.{IsReady, run_step-IsReady}
use dse_vp.Core.Exec.Muldiv.{IsDivision, div-rem}
use dse_vp.Core.Exec.Muldiv.Products.{mulh-mul}
use dse_vp.Core.Exec.Csr.Rights.{Refuses, exec_csr-refused}
use dse_vp.Core.Exec.Csr.Masks.{SameMachineFields, set_csr_value-machine_fields}
use dse_vp.Core.Tests.{in_user_mode, lexical_cast}

-- Little-endian memory of bytes.
load_bytes : ℕ → ℕ → (ℕ → ℕ) → ℕ
load_bytes zero a m = 0
load_bytes (suc n) a m = m a + load_bytes n (a + 1) m * 256

store_bytes : ℕ → ℕ → ℕ → (ℕ → ℕ) → ℕ → ℕ
store_bytes zero a v m = m
store_bytes (suc n) a v m = store_bytes n (a + 1) (v / 256) (λ k. if k == a then v % 256 else m k)

abbrev pub flat : Bus (ℕ → ℕ)
unfolding load_bytes store_bytes
flat = record {
  page_fault_on_ad = false;
  v2p = λ s a t m. translated a (m, false);
  raw_load = λ n a m. ok (load_bytes n a m, m);
  raw_store = λ n a v m. ok (store_bytes n a v m);
  flush_tlb = λ m. m;
  mtime = λ m. (0, m);
}

-- ADDI x1, x0, -3, then SW x1, 64(x0), LB x2, 65(x0), MULH x3, x1, x1, DIV x4, x1, x2 and
-- JALR x5, 2(x0).
abbrev program : ℕ → ℕ
program k =
    let w =
      if k / 4 == 0
      then 0xFFD00093
      else if k / 4 == 1
      then 0x04102023
      else if k / 4 == 2
      then 0x04100103
      else if k / 4 == 3
      then 0x021091B3
      else if k / 4 == 4
      then 0x0220C233
      else if k / 4 == 5
      then 0x002002E7
      else 0 in
    w / 256 ^ (k % 4) % 256

abbrev pub start : Iss (ℕ → ℕ)
start = record {
  hart = record in_user_mode { pc = 0; prv = 3; csrs = record in_user_mode.csrs { mie = 0 } };
  regs = λ k. 0;
  words = λ a. 0;
  cycle = 0;
  time = 0;
  instret = 0;
  cycle_counter = 0;
  total_num_instr = 0;
  lr_addr = 0;
  instr = 0;
  op = Mapping.undef;
  status = Status.runnable;
  shall_exit = false;
  debug_mode = true;
  breakpoints = λ k. k == 2;
  memory = program;
}

abbrev second : Iss (ℕ → ℕ)
second = elim (run_step flat lexical_cast start) [ none ↦ start | some s ↦ s ]

stepped : run_step flat lexical_cast start ≡ some second
unfolding run_step after_step exec_step pc_alignment_mask fetch load_instr v2p flat raw_load_data
    load_bytes decode is_custom opcode is_compressed quadrant exec_op exec_value imm_value
    decode_normal decode_op_imm match_instr mask encoding funct3 finish_step
    performance_and_sync_update take_interrupt compute_pending_interrupts match_instr2
stepped = refl

ready : IsReady start
ready = record {
  sound = record {
    regs_word = λ k. omega arith;
    even = record {
      pc_even = refl;
      last_pc_even = refl;
      mepc_even = refl;
      sepc_even = refl;
      uepc_even = refl;
      has_c = refl;
    };
  };
  zero_reset = refl;
}

run_step-IsReady_example :
    IsReady second × (bit_and second.hart.pc (not32 (pc_alignment_mask second)) ≡ 0)
run_step-IsReady_example = run_step-IsReady flat lexical_cast start second ready stepped

abbrev two : ℕ
two = 2

-- -7 divided by 2.
div-rem_example :
    ((div 4294967289 2 * 2 + rem 4294967289 2) % 2 ^ 32 ≡ 4294967289)
    × ((two ≡ 0) × (div 4294967289 2 ≡ 2 ^ 32 - 1)
        ⊎ IsDivision 4294967289 2 (div 4294967289 2) (rem 4294967289 2))
div-rem_example = div-rem 4294967289 2 (omega arith) (omega arith)

mulh-mul_example :
    (mulh 4294967289 2 * 2 ^ 32 + mul 4294967289 2 ≡ 2 ^ 64 - 14)
    × (mulhu 4294967289 2 * 2 ^ 32 + mul 4294967289 2 ≡ 8589934578)
    × (mulhsu 4294967289 2 * 2 ^ 32 + mul 4294967289 2 ≡ 2 ^ 64 - 14)
mulh-mul_example = mulh-mul 4294967289 2 (omega arith) (omega arith)

abbrev as_user : Iss (ℕ → ℕ)
as_user = record start { hart = record start.hart { prv = 0 } }

-- CSRRS x1, mstatus, x0 in user mode.
exec_csr-refused_example : Refuses 0x300020F3 as_user (exec_csr flat Mapping.csrrs 0x300020F3)
unfolding csr
exec_csr-refused_example =
    exec_csr-refused flat Mapping.csrrs 0x300020F3 as_user (inl (omega arith))

set_csr_value-machine_fields_example :
    (t : Iss (ℕ → ℕ)) × (set_csr_value flat 0x10059073 0x100 0xFFFFFFFF start ≡ done tt t)
    × SameMachineFields start.hart.csrs.mstatus t.hart.csrs.mstatus
set_csr_value-machine_fields_example =
    set_csr_value-machine_fields flat 0x10059073 0x100 0xFFFFFFFF start
      (record {
        spp_small = omega arith;
        mpp_small = omega arith;
        fs_small = omega arith;
        xs_small = omega arith;
      })
      (inl refl)
