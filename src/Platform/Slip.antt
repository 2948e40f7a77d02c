-- ===== src/Platform/Slip.antt =====
-- The SLIP device of vp/src/platform/common/slip.cpp, which passes packets of a network interface
-- to the guest and back. `handle_input` is the bytes that are pushed to the receive queue for a packet.
-- `sndbuf` holds the bytes of the send buffer, the last one first, and `sent` the packets written, the last one
-- first; `write` is what the system call returns for a packet, `none` for -1. An error that is thrown is
-- `none`. The allocation of the buffer is left out.
pub mod Framing
use dse_vp.Base.{
  ℕ, zero, suc, ◌+◌, Bool, true, false, not, ◌&&◌, ◌||◌, Option, none, some, List, [], ◌∷◌, ◌==◌,
  if◌then◌else◌,
}

abbrev pub slip_end : ℕ
slip_end = 0xC0

abbrev pub slip_esc : ℕ
slip_esc = 0xDB

abbrev pub slip_esc_end : ℕ
slip_esc_end = 0xDC

abbrev pub slip_esc_esc : ℕ
slip_esc_esc = 0xDD

unfoldable pub handle_input : List ℕ → List ℕ
handle_input [] = slip_end ∷ []
handle_input (b ∷ bs) =
    let rest = handle_input bs in
    if b == slip_end
    then slip_esc ∷ slip_esc_end ∷ rest
    else if b == slip_esc
    then slip_esc ∷ slip_esc_esc ∷ rest
    else b ∷ rest

pub record Slip : Type 0 where
  pub sndbuf : List ℕ
  pub sent : List (List ℕ)

unfoldable pub length : List ℕ → ℕ
length [] = 0
length (b ∷ bs) = length bs + 1

-- The items of a list, put before another one in turn.
unfoldable pub reverse_onto : List ℕ → List ℕ → List ℕ
reverse_onto [] cs = cs
reverse_onto (b ∷ bs) cs = reverse_onto bs (b ∷ cs)

-- A byte that is not the end of a packet, with the escapes replaced in the buffer.
unfoldable pub store_byte : ℕ → List ℕ → List ℕ
store_byte byte [] = byte ∷ []
store_byte byte (last ∷ rest) =
    if last == slip_esc && byte == slip_esc_end
    then slip_end ∷ rest
    else if last == slip_esc && byte == slip_esc_esc
    then slip_esc ∷ rest
    else byte ∷ last ∷ rest

unfoldable pub is_empty : List ℕ → Bool
is_empty [] = true
is_empty (b ∷ bs) = false

module _ (write : List ℕ → Option ℕ) where
  unfoldable pub send_packet : Slip → Option Slip
  send_packet s =
      let packet = reverse_onto s.sndbuf [] in
      elim (write packet) [
        | none ↦ none
        | some ret ↦
            if ret == length packet
            then some (record { sndbuf = []; sent = packet ∷ s.sent })
            else none
      ]

  unfoldable pub write_data : ℕ → Slip → Option Slip
  write_data byte s =
      if byte == slip_end
      then (if is_empty s.sndbuf then some s else send_packet s)
      else some (record s { sndbuf = store_byte byte s.sndbuf })

  -- The guest writes the bytes in turn.
  unfoldable pub write_all : List ℕ → Slip → Option Slip
  write_all [] s = some s
  write_all (b ∷ bs) s = elim (write_data b s) [ none ↦ none | some t ↦ write_all bs t ]
