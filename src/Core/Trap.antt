-- ===== src/Core/Trap.antt =====
-- Traps and interrupts of the RV32 processor: vp/src/core/rv32/iss.cpp (`return_from_trap_handler`
-- up to `switch_to_trap_handler`, and the interrupt pins) over the registers of csr.h. The bit
-- fields of `mstatus`, `mcause` and the like are the fields of records; the masks `mie`, `mip` and
-- the delegation registers are words. Tracing and the event `wfi_event` are left out.
pub mod Pins
pub mod Pending
pub mod Delegation
pub mod Handler
pub mod Return
use dse_vp.Base.{
  ℕ, ◌+◌, ◌-◌, ◌*◌, ◌%◌, ◌^◌, Bool, true, false, not, ◌&&◌, ◌||◌, Option, none, some, bit_and,
  bit_or, ltb, ◌==◌, if◌then◌else◌, u32, not32, digit,
}

-- `PrivilegeLevel` is a `uint32_t`; `NoneMode` is -1.
abbrev pub user_mode : ℕ
user_mode = 0

abbrev pub supervisor_mode : ℕ
supervisor_mode = 1

abbrev pub machine_mode : ℕ
machine_mode = 3

abbrev pub none_mode : ℕ
none_mode = 2 ^ 32 - 1

pub record Mstatus : Type 0 where
  pub uie : Bool
  pub sie : Bool
  pub mie : Bool
  pub upie : Bool
  pub spie : Bool
  pub mpie : Bool
  pub spp : ℕ
  pub mpp : ℕ
  pub fs : ℕ
  pub xs : ℕ
  pub mprv : Bool
  pub sum : Bool
  pub mxr : Bool
  pub tvm : Bool
  pub tw : Bool
  pub tsr : Bool
  pub sd : Bool

pub record Cause : Type 0 where
  pub interrupt : Bool
  pub exception_code : ℕ

pub record Tvec : Type 0 where
  pub mode : ℕ
  pub base : ℕ

pub record Csrs : Type 0 where
  pub mstatus : Mstatus
  pub mie : ℕ
  pub mip : ℕ
  pub mideleg : ℕ
  pub sideleg : ℕ
  pub medeleg : ℕ
  pub sedeleg : ℕ
  pub mcause : Cause
  pub scause : Cause
  pub ucause : Cause
  pub mtval : ℕ
  pub stval : ℕ
  pub utval : ℕ
  pub mepc : ℕ
  pub sepc : ℕ
  pub uepc : ℕ
  pub mtvec : Tvec
  pub stvec : Tvec
  pub utvec : Tvec
  pub misa : ℕ

-- A bit of the 26 bits `extensions` of `misa`.
abbrev pub has_extension : ℕ → Csrs → Bool
has_extension x c = not (bit_and (c.misa % 2 ^ 26) x == 0)

abbrev pub has_user_mode_extension : Csrs → Bool
has_user_mode_extension = has_extension (2 ^ 20)

-- `bus_locked` is the lock that `mem->atomic_unlock` frees.
pub record Hart : Type 0 where
  pub pc : ℕ
  pub last_pc : ℕ
  pub prv : ℕ
  pub lr_sc_counter : ℕ
  pub bus_locked : Bool
  pub csrs : Csrs

pub record SimulationTrap : Type 0 where
  pub reason : ℕ
  pub mtval : ℕ

pub record PendingInterrupts : Type 0 where
  pub target_mode : ℕ
  pub pending : ℕ

-- `none` is the exception "unknown privilege level".
unfoldable pub return_from_trap_handler : ℕ → Hart → Option Hart
return_from_trap_handler return_mode h =
    let c = h.csrs in
    let m = c.mstatus in
    if return_mode == machine_mode
    then some (record h {
      prv = m.mpp;
      pc = c.mepc;
      csrs = record c {
        mstatus = record m {
          mie = m.mpie;
          mpie = true;
          mpp = if has_user_mode_extension c then user_mode else machine_mode;
        };
      };
    })
    else if return_mode == supervisor_mode
    then some (record h {
      prv = m.spp;
      pc = c.sepc;
      csrs = record c {
        mstatus = record m {
          sie = m.spie;
          spie = true;
          spp = if has_user_mode_extension c then user_mode else supervisor_mode;
        };
      };
    })
    else if return_mode == user_mode
    then some (record h {
      prv = user_mode;
      pc = c.uepc;
      csrs = record c { mstatus = record m { uie = m.upie; upie = true } };
    })
    else none

-- An assignment to the one-bit field `n` of a word.
abbrev pub assign_bit : ℕ → ℕ → Bool → ℕ
assign_bit w n b = if b then bit_or w (2 ^ n) else bit_and w (not32 (2 ^ n))

set_external : Bool → ℕ → Hart → Hart
set_external b level h =
    let mip = h.csrs.mip in
    let mip' =
      if level == user_mode
      then assign_bit mip 8 b
      else if level == supervisor_mode
      then assign_bit mip 9 b
      else if level == machine_mode
      then assign_bit mip 11 b
      else mip in
    record h { csrs = record h.csrs { mip = mip' } }

unfoldable pub trigger_external_interrupt : ℕ → Hart → Hart
unfolding set_external
trigger_external_interrupt = set_external true

unfoldable pub clear_external_interrupt : ℕ → Hart → Hart
unfolding set_external
clear_external_interrupt = set_external false

unfoldable pub trigger_timer_interrupt : Bool → Hart → Hart
trigger_timer_interrupt status h = record h {
  csrs = record h.csrs { mip = assign_bit h.csrs.mip 7 status };
}

unfoldable pub trigger_software_interrupt : Bool → Hart → Hart
trigger_software_interrupt status h = record h {
  csrs = record h.csrs { mip = assign_bit h.csrs.mip 3 status };
}

-- `cast` is `boost::lexical_cast<uint32_t>`, where `none` is the exception that it throws. The cast stands in
-- each of the three branches; before the last one an assertion may fail.
unfoldable pub prepare_trap : (ℕ → Option ℕ) → SimulationTrap → Hart → Option (Hart × ℕ)
prepare_trap cast e h =
    let c = h.csrs in
    let exc_bit = 2 ^ e.reason in
    let cause : Cause = record { interrupt = false; exception_code = e.reason } in
    elim (cast e.mtval) [
      | none ↦ none
      | some value ↦
          if h.prv == machine_mode || bit_and exc_bit c.medeleg == 0
          then some (
            record h { pc = h.last_pc; csrs = record c { mcause = cause; mtval = value } },
            machine_mode,
          )
          else if h.prv == supervisor_mode || bit_and exc_bit c.sedeleg == 0
          then some (
            record h { pc = h.last_pc; csrs = record c { scause = cause; stval = value } },
            supervisor_mode,
          )
          else if h.prv == user_mode
          then some (
            record h { pc = h.last_pc; csrs = record c { ucause = cause; utval = value } },
            user_mode,
          )
          else none
    ]

abbrev pub is_set : ℕ → ℕ → Bool
is_set w n = digit w n == 1

-- The first interrupt in the order of the privileged specification; `none` is the exception "some
-- pending interrupt must be available here".
unfoldable pub select_interrupt : ℕ → Option ℕ
select_interrupt x =
    if is_set x 11
    then some 11
    else if is_set x 3
    then some 3
    else if is_set x 7
    then some 7
    else if is_set x 9
    then some 9
    else if is_set x 1
    then some 1
    else if is_set x 5
    then some 5
    else if is_set x 8
    then some 8
    else if is_set x 0
    then some 0
    else if is_set x 4
    then some 4
    else none

store_cause : ℕ → ℕ → Hart → Option Hart
store_cause target exc h =
    let cause : Cause = record { interrupt = true; exception_code = exc } in
    if target == machine_mode
    then some (record h { csrs = record h.csrs { mcause = cause } })
    else if target == supervisor_mode
    then some (record h { csrs = record h.csrs { scause = cause } })
    else if target == user_mode
    then some (record h { csrs = record h.csrs { ucause = cause } })
    else none

unfoldable pub prepare_interrupt : PendingInterrupts → Hart → Option Hart
unfolding store_cause
prepare_interrupt e h = elim (select_interrupt e.pending) [
  | none ↦ none
  | some exc ↦ store_cause e.target_mode exc h
]

abbrev nothing_pending : PendingInterrupts
nothing_pending = record { target_mode = none_mode; pending = 0 }

unfoldable pub compute_pending_interrupts : Hart → PendingInterrupts
compute_pending_interrupts h =
    let c = h.csrs in
    let pending = bit_and c.mie c.mip in
    let m_pending = bit_and pending (not32 c.mideleg) in
    let delegated = bit_and pending c.mideleg in
    let s_pending = bit_and delegated (not32 c.sideleg) in
    let u_pending = bit_and delegated c.sideleg in
    if pending == 0
    then nothing_pending
    else if not (m_pending == 0)
        && (ltb h.prv machine_mode || (h.prv == machine_mode && c.mstatus.mie))
    then record { target_mode = machine_mode; pending = m_pending }
    else if not (s_pending == 0)
        && (ltb h.prv supervisor_mode || (h.prv == supervisor_mode && c.mstatus.sie))
    then record { target_mode = supervisor_mode; pending = s_pending }
    else if not (u_pending == 0) && (h.prv == user_mode && c.mstatus.uie)
    then record { target_mode = user_mode; pending = u_pending }
    else nothing_pending

-- The address of the handler; mode 1 is `Vectored`.
abbrev pub handler_address : Tvec → Cause → ℕ
handler_address tvec cause =
    let base_address = u32 (tvec.base * 2 ^ 2) in
    if cause.interrupt && tvec.mode == 1
    then u32 (base_address + 4 * cause.exception_code)
    else base_address

-- With `release_lr_sc_reservation`. `none` is the exception "unknown privilege level".
unfoldable pub switch_to_trap_handler : ℕ → Hart → Option Hart
switch_to_trap_handler target_mode h =
    let c = h.csrs in
    let m = c.mstatus in
    let free = record h { lr_sc_counter = 0; bus_locked = false; prv = target_mode } in
    if target_mode == machine_mode
    then some (record free {
      pc = handler_address c.mtvec c.mcause;
      csrs = record c {
        mepc = h.pc;
        mstatus = record m { mpie = m.mie; mie = false; mpp = h.prv % 4 };
      };
    })
    else if target_mode == supervisor_mode
    then some (record free {
      pc = handler_address c.stvec c.scause;
      csrs = record c {
        sepc = h.pc;
        mstatus = record m { spie = m.sie; sie = false; spp = h.prv % 2 };
      };
    })
    else if target_mode == user_mode
    then some (record free {
      pc = handler_address c.utvec c.ucause;
      csrs = record c { uepc = h.pc; mstatus = record m { upie = m.uie; uie = false } };
    })
    else none

-- The part of `run_step` that takes an interrupt after an instruction.
unfoldable pub take_interrupt : Hart → Option Hart
take_interrupt h =
    let x = compute_pending_interrupts h in
    if x.target_mode == none_mode then some h else elim (prepare_interrupt x h) [
      | none ↦ none
      | some g ↦ switch_to_trap_handler x.target_mode g
    ]

-- The handler of `SimulationTrap` in `run_step`. No handler of the source catches the exception of the cast.
unfoldable pub take_trap : (ℕ → Option ℕ) → SimulationTrap → Hart → Option Hart
take_trap cast e h = elim (prepare_trap cast e h) [
  | none ↦ none
  | some (g, target_mode) ↦ switch_to_trap_handler target_mode g
]
