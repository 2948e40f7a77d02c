-- ===== src/Core/Exec/Csr.antt =====
-- The control and status registers: `csr_table` of vp/src/core/rv32/csr.h, which maps an address to a
-- register, and `is_invalid_csr_access` up to `set_csr_value` of vp/src/core/rv32/iss.cpp. A `Slot` is
-- what the pointer in `register_mapping` points to.
pub mod Access
pub mod Rights
pub mod Masks
use dse_vp.Base.{
  ℕ, ◌+◌, ◌-◌, ◌*◌, ◌/◌, ◌%◌, ◌^◌, Bool, true, false, not, ◌&&◌, ◌||◌, Option, none, some, bit_and,
  bit_or, ltb, leb, ◌==◌, if◌then◌else◌, u32, not32, digit,
}
use dse_vp.Core.Exec.Operands.{to_int}
use dse_vp.Core.Trap.{Mstatus, Cause, Tvec, Csrs, has_extension, has_user_mode_extension}
use dse_vp.Core.Exec.{
  Iss, Bus, Exec, Outcome, done, trapped, stopped, pure, ◌>>=◌, ◌>>◌, raise_trap, modify, gets,
  trap_if,
}

abbrev flag : Bool → ℕ → ℕ
flag b k = to_int b * 2 ^ k

abbrev bit : ℕ → ℕ → Bool
bit w k = w / 2 ^ k % 2 == 1

-- The bit fields of the union `csr_mstatus`; the reserved fields stay 0.
unfoldable pub mstatus_word : Mstatus → ℕ
mstatus_word m =
    flag m.uie 0
    + flag m.sie 1
    + flag m.mie 3
    + flag m.upie 4
    + flag m.spie 5
    + flag m.mpie 7
    + m.spp * 2 ^ 8
    + m.mpp * 2 ^ 11
    + m.fs * 2 ^ 13
    + m.xs * 2 ^ 15
    + flag m.mprv 17
    + flag m.sum 18
    + flag m.mxr 19
    + flag m.tvm 20
    + flag m.tw 21
    + flag m.tsr 22
    + flag m.sd 31

unfoldable pub mstatus_of : ℕ → Mstatus
mstatus_of w = record {
  uie = bit w 0;
  sie = bit w 1;
  mie = bit w 3;
  upie = bit w 4;
  spie = bit w 5;
  mpie = bit w 7;
  spp = w / 2 ^ 8 % 2;
  mpp = w / 2 ^ 11 % 4;
  fs = w / 2 ^ 13 % 4;
  xs = w / 2 ^ 15 % 4;
  mprv = bit w 17;
  sum = bit w 18;
  mxr = bit w 19;
  tvm = bit w 20;
  tw = bit w 21;
  tsr = bit w 22;
  sd = bit w 31;
}

unfoldable pub cause_word : Cause → ℕ
cause_word c = c.exception_code + flag c.interrupt 31

unfoldable pub cause_of : ℕ → Cause
cause_of w = record { interrupt = bit w 31; exception_code = w % 2 ^ 31 }

unfoldable pub tvec_word : Tvec → ℕ
tvec_word t = t.mode + t.base * 2 ^ 2

unfoldable pub tvec_of : ℕ → Tvec
tvec_of w = record { mode = w % 4; base = w / 4 % 2 ^ 30 }

pub data Slot : Type 0 where
  cycle_low : Slot
  cycle_high : Slot
  time_low : Slot
  time_high : Slot
  instret_low : Slot
  instret_high : Slot
  mstatus : Slot
  misa : Slot
  medeleg : Slot
  mideleg : Slot
  mie : Slot
  mtvec : Slot
  mepc : Slot
  mcause : Slot
  mtval : Slot
  mip : Slot
  sedeleg : Slot
  sideleg : Slot
  stvec : Slot
  sepc : Slot
  scause : Slot
  stval : Slot
  utvec : Slot
  uepc : Slot
  ucause : Slot
  utval : Slot
  word : ℕ → Slot

-- The registers that have no other name here than their address: the identification registers, the
-- counter enables, the scratch registers, the memory protection, `satp` and `fcsr`.
is_word : ℕ → Bool
is_word a =
    leb 0xF11 a && leb a 0xF14
    || a == 0x306
    || a == 0x320
    || a == 0x340
    || leb 0x3B0 a && leb a 0x3BF
    || leb 0x3A0 a && leb a 0x3A3
    || a == 0x106
    || a == 0x140
    || a == 0x180
    || a == 0x040
    || a == 0x003

-- `register_mapping`, which has no entry for some addresses.
unfoldable pub register_mapping : ℕ → Option Slot
unfolding is_word
register_mapping a =
    if a == 0xC00 || a == 0xB00
    then some cycle_low
    else if a == 0xC80 || a == 0xB80
    then some cycle_high
    else if a == 0xC01 || a == 0xB01
    then some time_low
    else if a == 0xC81 || a == 0xB81
    then some time_high
    else if a == 0xC02 || a == 0xB02
    then some instret_low
    else if a == 0xC82 || a == 0xB82
    then some instret_high
    else if a == 0x300
    then some mstatus
    else if a == 0x301
    then some misa
    else if a == 0x302
    then some medeleg
    else if a == 0x303
    then some mideleg
    else if a == 0x304
    then some mie
    else if a == 0x305
    then some mtvec
    else if a == 0x341
    then some mepc
    else if a == 0x342
    then some mcause
    else if a == 0x343
    then some mtval
    else if a == 0x344
    then some mip
    else if a == 0x102
    then some sedeleg
    else if a == 0x103
    then some sideleg
    else if a == 0x105
    then some stvec
    else if a == 0x141
    then some sepc
    else if a == 0x142
    then some scause
    else if a == 0x143
    then some stval
    else if a == 0x005
    then some utvec
    else if a == 0x041
    then some uepc
    else if a == 0x042
    then some ucause
    else if a == 0x043
    then some utval
    else if is_word a
    then some (word a)
    else none

abbrev low : ℕ → ℕ
low w = w % 2 ^ 32

abbrev high : ℕ → ℕ
high w = w / 2 ^ 32 % 2 ^ 32

abbrev set_low : ℕ → ℕ → ℕ
set_low w v = high w * 2 ^ 32 + v

abbrev set_high : ℕ → ℕ → ℕ
set_high w v = v * 2 ^ 32 + low w

abbrev set_word : (ℕ → ℕ) → ℕ → ℕ → ℕ → ℕ
set_word f a v b = if b == a then v else f b

module _ {M : Type 0} where
  -- `default_read32` of a register that is there.
  unfoldable pub read_slot : Slot → Iss M → ℕ
  read_slot cycle_low s = low s.cycle
  read_slot cycle_high s = high s.cycle
  read_slot time_low s = low s.time
  read_slot time_high s = high s.time
  read_slot instret_low s = low s.instret
  read_slot instret_high s = high s.instret
  read_slot mstatus s = mstatus_word s.hart.csrs.mstatus
  read_slot misa s = s.hart.csrs.misa
  read_slot medeleg s = s.hart.csrs.medeleg
  read_slot mideleg s = s.hart.csrs.mideleg
  read_slot mie s = s.hart.csrs.mie
  read_slot mtvec s = tvec_word s.hart.csrs.mtvec
  read_slot mepc s = s.hart.csrs.mepc
  read_slot mcause s = cause_word s.hart.csrs.mcause
  read_slot mtval s = s.hart.csrs.mtval
  read_slot mip s = s.hart.csrs.mip
  read_slot sedeleg s = s.hart.csrs.sedeleg
  read_slot sideleg s = s.hart.csrs.sideleg
  read_slot stvec s = tvec_word s.hart.csrs.stvec
  read_slot sepc s = s.hart.csrs.sepc
  read_slot scause s = cause_word s.hart.csrs.scause
  read_slot stval s = s.hart.csrs.stval
  read_slot utvec s = tvec_word s.hart.csrs.utvec
  read_slot uepc s = s.hart.csrs.uepc
  read_slot ucause s = cause_word s.hart.csrs.ucause
  read_slot utval s = s.hart.csrs.utval
  read_slot (word a) s = s.words a

  set_csrs : (Csrs → Csrs) → Iss M → Iss M
  set_csrs f s = record s { hart = record s.hart { csrs = f s.hart.csrs } }

  -- `default_write32` of a register that is there.
  unfoldable pub write_slot : Slot → ℕ → Iss M → Iss M
  unfolding set_csrs
  write_slot cycle_low v s = record s { cycle = set_low s.cycle v }
  write_slot cycle_high v s = record s { cycle = set_high s.cycle v }
  write_slot time_low v s = record s { time = set_low s.time v }
  write_slot time_high v s = record s { time = set_high s.time v }
  write_slot instret_low v s = record s { instret = set_low s.instret v }
  write_slot instret_high v s = record s { instret = set_high s.instret v }
  write_slot mstatus v s = set_csrs (λ c. record c { mstatus = mstatus_of v }) s
  write_slot misa v s = set_csrs (λ c. record c { misa = v }) s
  write_slot medeleg v s = set_csrs (λ c. record c { medeleg = v }) s
  write_slot mideleg v s = set_csrs (λ c. record c { mideleg = v }) s
  write_slot mie v s = set_csrs (λ c. record c { mie = v }) s
  write_slot mtvec v s = set_csrs (λ c. record c { mtvec = tvec_of v }) s
  write_slot mepc v s = set_csrs (λ c. record c { mepc = v }) s
  write_slot mcause v s = set_csrs (λ c. record c { mcause = cause_of v }) s
  write_slot mtval v s = set_csrs (λ c. record c { mtval = v }) s
  write_slot mip v s = set_csrs (λ c. record c { mip = v }) s
  write_slot sedeleg v s = set_csrs (λ c. record c { sedeleg = v }) s
  write_slot sideleg v s = set_csrs (λ c. record c { sideleg = v }) s
  write_slot stvec v s = set_csrs (λ c. record c { stvec = tvec_of v }) s
  write_slot sepc v s = set_csrs (λ c. record c { sepc = v }) s
  write_slot scause v s = set_csrs (λ c. record c { scause = cause_of v }) s
  write_slot stval v s = set_csrs (λ c. record c { stval = v }) s
  write_slot utvec v s = set_csrs (λ c. record c { utvec = tvec_of v }) s
  write_slot uepc v s = set_csrs (λ c. record c { uepc = v }) s
  write_slot ucause v s = set_csrs (λ c. record c { ucause = cause_of v }) s
  write_slot utval v s = set_csrs (λ c. record c { utval = v }) s
  write_slot (word a) v s = record s { words = set_word s.words a v }
