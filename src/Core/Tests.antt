-- ===== src/Core/Tests.antt =====
-- The processor at concrete states and words.
use dse_vp.Base.{
  ℕ, ◌<◌, ◌≤◌, ◌≡◌, ◌≢◌, ◌⊎◌, inl, inr, refl, true, false, none, some, arith, ◌^◌, Option, ltb,
  if◌then◌else◌, ◌↔◌, digit,
}
use dse_vp.Core.Trap.{
  Hart, Csrs, Cause, Tvec, supervisor_mode, none_mode, compute_pending_interrupts, take_interrupt,
  take_trap, switch_to_trap_handler, return_from_trap_handler,
}
use dse_vp.Core.Trap.Pending.{route, accepts, IsRaised, IsMasks, compute_pending-exact}
use dse_vp.Core.Trap.Delegation.{trap_level, epc, cause, tval, take_trap-exact}
use dse_vp.Core.Trap.Handler.{take_interrupt-exact}
use dse_vp.Core.Trap.Return.{SameEnables, switch-return, switch-not_reentered}
use dse_vp.Core.Opcode.{Mapping}
use dse_vp.Core.Instr.{rd, c_rd}
use dse_vp.Core.Instr.Decode.{Architecture}
use dse_vp.Core.Instr.Decode.All.{decode_normal}
use dse_vp.Core.Instr.Compressed.{Opcode}
use dse_vp.Core.Instr.Expand.{expand_compressed}
use dse_vp.Core.Instr.Expand.Agrees.{Agrees, expand-decodes, expand-addiw}

abbrev no_cause : Cause
no_cause = record { interrupt = false; exception_code = 0 }

abbrev handler_at : ℕ → Tvec
handler_at base = record { mode = 0; base = base }

-- The machine timer and the supervisor's software interrupt are raised, and the latter is delegated.
abbrev csrs : Csrs
csrs = record {
  mstatus = record {
    uie = false;
    sie = true;
    mie = true;
    upie = false;
    spie = false;
    mpie = false;
    spp = 0;
    mpp = 0;
    fs = 0;
    xs = 0;
    mprv = false;
    sum = false;
    mxr = false;
    tvm = false;
    tw = false;
    tsr = false;
    sd = false;
  };
  mie = 130;
  mip = 130;
  mideleg = 2;
  sideleg = 0;
  medeleg = 256;
  sedeleg = 0;
  mcause = no_cause;
  scause = no_cause;
  ucause = no_cause;
  mtval = 0;
  stval = 0;
  utval = 0;
  mepc = 0;
  sepc = 0;
  uepc = 0;
  mtvec = handler_at 64;
  stvec = handler_at 128;
  utvec = handler_at 192;
  misa = 0x40141125;
}

abbrev pub in_user_mode : Hart
in_user_mode = record {
  pc = 4096;
  last_pc = 4092;
  prv = 0;
  lr_sc_counter = 7;
  bus_locked = true;
  csrs = csrs;
}

masks : IsMasks csrs
masks = (omega arith, omega arith)

compute_pending-exact_example :
    let r = compute_pending_interrupts in_user_mode in
    (accepts in_user_mode r.target_mode ≡ true)
    × ((digit r.pending 7 ≡ 1) ↔ (IsRaised csrs 7 × (route csrs 7 ≡ r.target_mode)))
unfolding compute_pending_interrupts
compute_pending-exact_example =
    compute_pending-exact in_user_mode 7 masks (omega arith) (omega arith)

take_interrupt-exact_example :
    (g : Hart) × (take_interrupt in_user_mode ≡ some g)
    × (((compute_pending_interrupts in_user_mode).target_mode ≡ none_mode) × (g ≡ in_user_mode)
        ⊎ (n : ℕ) × IsRaised csrs n
          × (route csrs n ≡ g.prv)
          × (0 ≤ g.prv)
          × (epc g.csrs g.prv ≡ 4096)
          × (cause g.csrs g.prv ≡ record { interrupt = true; exception_code = n })
          × (g.lr_sc_counter ≡ 0))
take_interrupt-exact_example =
    take_interrupt-exact in_user_mode masks (omega arith, refl, refl, refl)

-- A cast as it is documented.
abbrev pub lexical_cast : ℕ → Option ℕ
lexical_cast n = if ltb n (2 ^ 32) then some n else none

-- An environment call from user mode, which is delegated.
take_trap-exact_example :
    ((2 ^ 32 ≤ 4092)
      × (take_trap lexical_cast (record { reason = 8; mtval = 4092 }) in_user_mode ≡ none))
    ⊎ ((4092 < 2 ^ 32)
        × ((g : Hart) × (take_trap lexical_cast (record { reason = 8; mtval = 4092 }) in_user_mode
              ≡ some g)
            × (g.prv ≡ trap_level in_user_mode 8)
            × (0 ≤ g.prv)
            × (epc g.csrs g.prv ≡ 4092)
            × (cause g.csrs g.prv ≡ record { interrupt = false; exception_code = 8 })
            × (tval g.csrs g.prv ≡ 4092)
            × (g.lr_sc_counter ≡ 0)
            × (g.bus_locked ≡ false)))
take_trap-exact_example =
    take_trap-exact lexical_cast (record { reason = 8; mtval = 4092 }) in_user_mode (λ n. refl)
      (inl refl)

switch-return_example :
    (g : Hart) × (k : Hart) × (switch_to_trap_handler supervisor_mode in_user_mode ≡ some g)
    × (return_from_trap_handler supervisor_mode g ≡ some k)
    × (k.pc ≡ 4096)
    × (k.prv ≡ 0)
    × SameEnables in_user_mode k
switch-return_example =
    switch-return supervisor_mode in_user_mode (inr (inl refl)) (inl refl) (omega arith)

switch-not_reentered_example :
    (g : Hart) × (switch_to_trap_handler supervisor_mode in_user_mode ≡ some g)
    × ((compute_pending_interrupts g).target_mode ≢ none_mode
        → supervisor_mode < (compute_pending_interrupts g).target_mode)
switch-not_reentered_example =
    switch-not_reentered supervisor_mode in_user_mode (inr (inl refl)) masks

-- C.ADDI x1, 1.
expand-decodes_example :
    Agrees Architecture.rv32 (expand_compressed Opcode.c_addi Architecture.rv32 133)
expand-decodes_example = expand-decodes Opcode.c_addi Architecture.rv32 133 (λ e. cc)

expand-addiw_example :
    let r = expand_compressed Opcode.c_addiw Architecture.rv64 8325 in
    (r.0 ≡ Mapping.addiw) × (decode_normal Architecture.rv64 r.1 ≡ Mapping.addi)
unfolding c_rd rd
expand-addiw_example = expand-addiw Architecture.rv64 8325 (omega arith)
