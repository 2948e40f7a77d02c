-- ===== src/Platform/Banks.antt =====
-- Banks of registers, vp/src/util/tlm_map.h: registers of 32 bits that an access reaches by their addresses, with a
-- handler that performs the access, and ranges of addresses with a handler of their own. The state `S` is the
-- peripheral's. A failed assertion and a thrown error are `none`. Where the source points to a register, the model
-- has its address; delays are left out.
pub mod Access
use dse_vp.Base.{
  ℕ, ◌+◌, ◌-◌, ◌/◌, ◌%◌, ◌^◌, Bool, true, false, not, ◌&&◌, ◌||◌, Option, none, some, List, [], ◌∷◌,
  length, leb, ltb, ◌==◌, if◌then◌else◌, bit_and,
}
use dse_vp.Tlm.{Part}
use dse_vp.Tlm.Bytes.{load, store, to_word}

pub record AccessMode : Type 0 where
  pub allow_read : Bool
  pub allow_write : Bool

abbrev pub read_write : AccessMode
read_write = record { allow_read = true; allow_write = true }

abbrev pub read_only : AccessMode
read_only = record { allow_read = true; allow_write = false }

abbrev pub write_only : AccessMode
write_only = record { allow_read = false; allow_write = true }

-- Whether the mode has the command, a write or a read.
abbrev pub allows : AccessMode → Bool → Bool
allows mode write = if write then mode.allow_write else mode.allow_read

pub record RegMapping (S : Type 0) : Type 0 where
  pub addr : ℕ
  pub reg : Part S ℕ
  pub mode : AccessMode
  pub mask : ℕ

-- The bytes of the payload, and the peripheral.
pub record Transfer (S : Type 0) : Type 0 where
  pub payload : List ℕ
  pub state : S

-- What a handler is told: the command, the address of the register and the new value, of which the
-- model has the bytes of the payload.
pub record RegisterAccess : Type 0 where
  pub write : Bool
  pub vptr : ℕ
  pub nv : ℕ

-- A handler gets the function that performs the access.
abbrev pub Handler : Type 0 → Type 0
Handler S = RegisterAccess → (Transfer S → Option (Transfer S)) → Transfer S → Option (Transfer S)

abbrev pub byte_of : ℕ → ℕ → ℕ
byte_of n k = n / 256 ^ k % 256

-- `RegisterMapping` and `AddressMapping`.
pub data Mapped (S : Type 0) : Type 0 where
  registers : List (RegMapping S) → Handler S → Mapped S
  addresses : ℕ → ℕ → AccessMode → (Bool → ℕ → Transfer S → Option (Transfer S)) → Mapped S

module _ {S : Type 0} where
  unfoldable pub bus_write : RegMapping S → ℕ → S → Option S
  bus_write r v s = if r.mode.allow_write then some (r.reg.update (bit_and v r.mask) s) else none

  unfoldable pub bus_read : RegMapping S → S → Option ℕ
  bus_read r s = if r.mode.allow_read then some (r.reg.view s) else none

  -- `fn`, for an access at the offset `off` in the register.
  unfoldable pub access : RegMapping S → Bool → ℕ → Transfer S → Option (Transfer S)
  access r false off t = elim (bus_read r t.state) [
    | none ↦ none
    | some n ↦ some (record t { payload = load (length t.payload) off (byte_of n) })
  ]
  access r true off t =
      let n = to_word (load 4 0 (store off t.payload (byte_of (r.reg.view t.state)))) in
      elim (bus_write r n t.state) [ none ↦ none | some s ↦ some (record t { state = s }) ]

  -- `addr_to_reg.find`.
  unfoldable pub find : List (RegMapping S) → ℕ → Option (RegMapping S)
  find [] addr = none
  find (r ∷ regs) addr = let rest = find regs addr in if r.addr == addr then some r else rest

  -- `try_handle` of a bank, once the register is found.
  unfoldable pub handle_register :
      Handler S → Bool → ℕ → RegMapping S → Transfer S → Option (Transfer S)
  handle_register handler write addr r t =
      if leb (length t.payload + addr % 4) 4 && allows r.mode write
      then handler
          (record { write = write; vptr = r.addr; nv = if write then to_word t.payload else 0 })
          (access r write (addr % 4)) t
      else none

  -- The result has no value where the mapping does not have the address, and else that of the access.
  unfoldable pub try_handle : Mapped S → Bool → ℕ → Transfer S → Option (Option (Transfer S))
  try_handle (registers regs handler) write addr t = elim (find regs (addr - addr % 4)) [
    | none ↦ none
    | some r ↦ some (handle_register handler write addr r t)
  ]
  try_handle (addresses start end mode handler) write addr t =
      if leb start addr && ltb addr end
      then some (
          if leb (addr + length t.payload) end && allows mode write
          then handler write (addr - start) t
          else none)
      else none

  unfoldable pub transport : List (Mapped S) → Bool → ℕ → Transfer S → Option (Transfer S)
  transport [] write addr t = none
  transport (m ∷ maps) write addr t =
      let rest = transport maps write addr t in
      elim (try_handle m write addr t) [ none ↦ rest | some r ↦ r ]
