-- ===== src/Core/Exec/Csr/Access.antt =====
-- Reading and writing a control and status register by its address: `is_invalid_csr_access`,
-- `validate_csr_counter_read_access_rights`, `get_csr_value` and `set_csr_value` of
-- vp/src/core/rv32/iss.cpp. The argument `instr` is the word of the instruction, which an illegal
-- instruction trap reports.
use dse_vp.Base.{
  ℕ, ◌+◌, ◌*◌, ◌/◌, ◌%◌, ◌^◌, Bool, not, ◌&&◌, ◌||◌, Option, none, some, bit_and, bit_or, ltb, leb,
  ◌==◌, if◌then◌else◌, not32,
}
use dse_vp.Core.Trap.{has_extension, has_user_mode_extension, supervisor_mode, user_mode}
use dse_vp.Core.Exec.{Iss, Bus, Exec, done, pure, ◌>>=◌, ◌>>◌, raise_trap, modify, gets}
use dse_vp.Core.Exec.Csr.{Slot, register_mapping, read_slot, write_slot}

abbrev pub illegal_instr : ℕ
illegal_instr = 2

-- `REQUIRE_ISA`.
abbrev pub require_isa : {M : Type 0} → ℕ → ℕ → Exec M (Unit {0})
require_isa instr x s =
    if bit_and s.hart.csrs.misa x == 0 then raise_trap illegal_instr instr s else done tt s

abbrev pub is_float_csr : ℕ → Bool
is_float_csr addr = addr == 1 || addr == 2 || addr == 3

-- The privilege level that an address demands, and whether it is read-only.
abbrev pub csr_prv : ℕ → ℕ
csr_prv addr = bit_and 0x300 addr / 2 ^ 8

abbrev pub csr_readonly : ℕ → Bool
csr_readonly addr = bit_and 0xC00 addr / 2 ^ 10 == 3

unfoldable pub is_invalid_csr_access : {M : Type 0} → ℕ → ℕ → Bool → Exec M Bool
is_invalid_csr_access instr addr is_write = do
  (if is_float_csr addr then require_isa instr (2 ^ 5) else pure tt)
  c ← gets λ s. s.hart.csrs
  prv ← gets λ s. s.hart.prv
  pure (
      is_write && csr_readonly addr
      || ltb prv (csr_prv addr)
      || csr_prv addr == supervisor_mode && not (has_extension (2 ^ 18) c)
      || csr_prv addr == user_mode && not (has_user_mode_extension c))

abbrev is_bitset : ℕ → ℕ → Bool
is_bitset w n = not (bit_and w (2 ^ n) == 0)

-- Reads of the counters 0xC00 to 0xC1F and 0xC80 to 0xC9F below machine mode.
unfoldable pub validate_csr_counter_read_access_rights : {M : Type 0} → ℕ → ℕ → Exec M (Unit {0})
validate_csr_counter_read_access_rights instr addr s =
    let cnt = bit_and addr 0x1F in
    let m = is_bitset (s.words 0x306) cnt in
    let u = is_bitset (s.words 0x106) cnt in
    if leb 0xC00 addr && leb addr 0xC1F || leb 0xC80 addr && leb addr 0xC9F
    then (if s.hart.prv == supervisor_mode && not m
        then raise_trap illegal_instr instr s
        else if s.hart.prv == user_mode && (not m || not u)
        then raise_trap illegal_instr instr s
        else done tt s)
    else done tt s

unfoldable pub is_hpmcounter : ℕ → Bool
is_hpmcounter a =
    leb 0xC03 a && leb a 0xC1F
    || leb 0xC83 a && leb a 0xC9F
    || leb 0xB03 a && leb a 0xB1F
    || leb 0xB83 a && leb a 0xB9F
    || leb 0x323 a && leb a 0x33F

abbrev is_debug : ℕ → Bool
is_debug a = leb 0x7A0 a && leb a 0x7A3 || leb 0x7B0 a && leb a 0x7B3

abbrev pub mstatus_mask : ℕ
mstatus_mask = 0x807FF9BB

abbrev pub sstatus_mask : ℕ
sstatus_mask = 0x800DE133

abbrev pub ustatus_mask : ℕ
ustatus_mask = 0x11

abbrev pub mie_mask : ℕ
mie_mask = 0xBBB

abbrev pub sie_mask : ℕ
sie_mask = 0x333

abbrev pub uie_mask : ℕ
uie_mask = 0x111

abbrev pub medeleg_mask : ℕ
medeleg_mask = 0xBBFF

abbrev pub sedeleg_mask : ℕ
sedeleg_mask = 0xB1FF

abbrev pub satp_mask : ℕ
satp_mask = 0x803FFFFF

-- The registers that are read under a mask.
unfoldable pub read_mask : ℕ → Option (Slot × ℕ)
read_mask a =
    if a == 0x300
    then some (Slot.mstatus, mstatus_mask)
    else if a == 0x100
    then some (Slot.mstatus, sstatus_mask)
    else if a == 0x000
    then some (Slot.mstatus, ustatus_mask)
    else if a == 0x344
    then some (Slot.mip, mie_mask)
    else if a == 0x144
    then some (Slot.mip, 3)
    else if a == 0x044
    then some (Slot.mip, 1)
    else if a == 0x304
    then some (Slot.mie, mie_mask)
    else if a == 0x104
    then some (Slot.mie, sie_mask)
    else if a == 0x004
    then some (Slot.mie, uie_mask)
    else if a == 0x003
    then some (Slot.word 0x003, 0xFF)
    else none

-- The registers that are written under a mask; `pc_alignment_mask` is the mask of the addresses of
-- instructions.
unfoldable pub write_mask : ℕ → ℕ → Option (Slot × ℕ)
write_mask pc_alignment_mask a =
    if a == 0x305
    then some (Slot.mtvec, not32 2)
    else if a == 0x105
    then some (Slot.stvec, not32 2)
    else if a == 0x005
    then some (Slot.utvec, not32 2)
    else if a == 0x341
    then some (Slot.mepc, pc_alignment_mask)
    else if a == 0x141
    then some (Slot.sepc, pc_alignment_mask)
    else if a == 0x041
    then some (Slot.uepc, pc_alignment_mask)
    else if a == 0x300
    then some (Slot.mstatus, mstatus_mask)
    else if a == 0x100
    then some (Slot.mstatus, sstatus_mask)
    else if a == 0x000
    then some (Slot.mstatus, ustatus_mask)
    else if a == 0x344
    then some (Slot.mip, sie_mask)
    else if a == 0x144
    then some (Slot.mip, 3)
    else if a == 0x044
    then some (Slot.mip, 1)
    else if a == 0x304
    then some (Slot.mie, mie_mask)
    else if a == 0x104
    then some (Slot.mie, sie_mask)
    else if a == 0x004
    then some (Slot.mie, uie_mask)
    else if a == 0x303
    then some (Slot.mideleg, mie_mask)
    else if a == 0x302
    then some (Slot.medeleg, medeleg_mask)
    else if a == 0x103
    then some (Slot.sideleg, mie_mask)
    else if a == 0x102
    then some (Slot.sedeleg, sedeleg_mask)
    else if a == 0x306
    then some (Slot.word 0x306, 7)
    else if a == 0x106
    then some (Slot.word 0x106, 7)
    else if a == 0x320
    then some (Slot.word 0x320, 5)
    else if a == 0x003
    then some (Slot.word 0x003, 0xFF)
    else if a == 0x180
    then some (Slot.word 0x180, satp_mask)
    else none

unfoldable pub pc_alignment_mask : {M : Type 0} → Iss M → ℕ
pc_alignment_mask s = if has_extension (2 ^ 2) s.hart.csrs then not32 1 else not32 3

-- `(x.reg & ~mask) | (value & mask)`.
abbrev pub merge : ℕ → ℕ → ℕ → ℕ
merge reg mask value = bit_or (bit_and reg (not32 mask)) (bit_and value mask)

module _ {M : Type 0} where
  -- `write` of `set_csr_value`.
  write_masked : Slot → ℕ → ℕ → Exec M (Unit {0})
  write_masked slot mask value = modify λ s. write_slot slot (merge (read_slot slot s) mask value) s

  -- The bit fields `fflags` and `frm` of `fcsr`.
  unfoldable pub write_fcsr_field : ℕ → ℕ → Exec M (Unit {0})
  write_fcsr_field addr value = modify λ s.
      let fcsr = s.words 0x003 in
      let fcsr' =
        if addr == 0x001
        then fcsr / 2 ^ 5 * 2 ^ 5 + value % 2 ^ 5
        else fcsr / 2 ^ 8 * 2 ^ 8 + value % 2 ^ 3 * 2 ^ 5 + fcsr % 2 ^ 5 in
      write_slot (Slot.word 0x003) fcsr' s

module _ {M : Type 0} (bus : Bus M) (instr : ℕ) where
  -- `update_and_get_mtime`, which is stored.
  abbrev read_time : Iss M → Iss M
  read_time s = record s { memory = (bus.mtime s.memory).1; time = (bus.mtime s.memory).0 % 2 ^ 64 }

  -- `_compute_and_get_current_cycles`, which is stored.
  abbrev read_cycle : Iss M → Iss M
  read_cycle s = record s { cycle = s.cycle_counter % 2 ^ 64 }

  -- The counters, which `get_csr_value` computes: the value and the state.
  unfoldable pub read_counter : ℕ → Iss M → Option (ℕ × Iss M)
  read_counter addr s =
      if addr == 0xC01 || addr == 0xB01
      then some (read_slot Slot.time_low (read_time s), read_time s)
      else if addr == 0xC81 || addr == 0xB81
      then some (read_slot Slot.time_high (read_time s), read_time s)
      else if addr == 0xB00
      then some (read_slot Slot.cycle_low (read_cycle s), read_cycle s)
      else if addr == 0xB80
      then some (read_slot Slot.cycle_high (read_cycle s), read_cycle s)
      else if addr == 0xB02
      then some (read_slot Slot.instret_low s, s)
      else if addr == 0xB82
      then some (read_slot Slot.instret_high s, s)
      else if is_hpmcounter addr
      then some (0, s)
      else none

  -- The registers that are read as they are.
  unfoldable pub read_whole : ℕ → Exec M ℕ
  read_whole addr s =
      if addr == 0x001
      then done (s.words 0x003 % 2 ^ 5) s
      else if addr == 0x002
      then done (s.words 0x003 / 2 ^ 5 % 2 ^ 3) s
      else if addr == 0x7A0
      then done 1 s
      else if is_debug addr
      then done 0 s
      else if addr == 0x180 && s.hart.csrs.mstatus.tvm
      then raise_trap illegal_instr instr s
      else elim (register_mapping addr) [
        | none ↦ raise_trap illegal_instr instr s
        | some slot ↦ done (read_slot slot s) s
      ]

  unfoldable pub read_csr : ℕ → Exec M ℕ
  read_csr addr s = elim (read_counter addr s) [
    | some (v, t) ↦ done v t
    | none ↦ elim (read_mask addr) [
      | some (slot, mask) ↦ done (bit_and (read_slot slot s) mask) s
      | none ↦ read_whole addr s
    ]
  ]

  unfoldable pub get_csr_value : ℕ → Exec M ℕ
  get_csr_value addr = do validate_csr_counter_read_access_rights instr addr; read_csr addr

  -- The registers that are written as they are.
  unfoldable pub write_whole : ℕ → ℕ → Exec M (Unit {0})
  write_whole addr value s =
      if addr == 0x001 || addr == 0x002
      then write_fcsr_field addr value s
      else if is_debug addr
      then done tt s
      else elim (register_mapping addr) [
        | none ↦ raise_trap illegal_instr instr s
        | some slot ↦ done tt (write_slot slot value s)
      ]

  unfoldable pub set_csr_value : ℕ → ℕ → Exec M (Unit {0})
  unfolding write_masked
  set_csr_value addr value s =
      if addr == 0x301 || is_hpmcounter addr
      then done tt s
      else if addr == 0x180 && s.hart.csrs.mstatus.tvm
      then raise_trap illegal_instr instr s
      else elim (write_mask (pc_alignment_mask s) addr) [
        | some (slot, mask) ↦ write_masked slot mask value s
        | none ↦ write_whole addr value s
      ]
