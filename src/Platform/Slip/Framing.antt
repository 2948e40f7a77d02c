-- ===== src/Platform/Slip/Framing.antt =====
-- Packets that one device receives and another sends.
use dse_vp.Base.{
  ℕ, ◌≡◌, refl, sym, ap, subst, ◌∙◌, Bool, true, false, not, ◌&&◌, ◌||◌, Option, none, some, List,
  [], ◌∷◌, ◌++◌, ◌==◌, arith, Bool-cases, inl, inr,
}
use dse_vp.Platform.Slip.{
  slip_end, slip_esc, slip_esc_end, slip_esc_esc, handle_input, Slip, length, reverse_onto,
  store_byte, is_empty, send_packet, write_data, write_all,
}

-- No escape byte stands before one of the two bytes that end an escape sequence.
unfoldable pub is_clear : ℕ → List ℕ → Bool
is_clear before [] = true
is_clear before (b ∷ bs) =
    let rest = is_clear b bs in
    not (before == slip_esc && (b == slip_esc_end || b == slip_esc_esc)) && rest

unfoldable pub last : List ℕ → ℕ
last [] = 0
last (b ∷ bs) = b

reverse_onto-reverse_onto :
    (bs cs ds : List ℕ) → reverse_onto (reverse_onto bs cs) ds ≡ reverse_onto cs (bs ++ ds)
unfolding reverse_onto
reverse_onto-reverse_onto [] cs ds = refl
reverse_onto-reverse_onto (b ∷ bs) cs ds = reverse_onto-reverse_onto bs (b ∷ cs) ds

store_byte-new :
    (b : ℕ) (bs : List ℕ)
    → (last bs == slip_esc && (b == slip_esc_end || b == slip_esc_esc)) ≡ false
    → store_byte b bs ≡ b ∷ bs
unfolding store_byte last
store_byte-new b [] h = refl
store_byte-new b (c ∷ bs) h = ground arith

store_byte-escape : (bs : List ℕ) → store_byte slip_esc bs ≡ slip_esc ∷ bs
unfolding store_byte
store_byte-escape [] = refl
store_byte-escape (c ∷ bs) = ground arith

append-nil : (bs : List ℕ) → bs ++ [] ≡ bs
append-nil [] = refl
append-nil (b ∷ bs) = ap (λ cs. b ∷ cs) (append-nil bs)

module _ (write : List ℕ → Option ℕ) where
  abbrev written : List ℕ → List ℕ → List (List ℕ) → Option Slip
  written p bs sent = write_all write p (record { sndbuf = bs; sent = sent })

  write_all-end : (s : Slip) → write_all write (slip_end ∷ []) s ≡ write_data write slip_end s
  unfolding write_all
  write_all-end s = go (write_data write slip_end s)
    where
      go : (o : Option Slip) → elim o [ none ↦ none | some t ↦ some t ] ≡ o
      go none = refl
      go (some t) = refl

  write_all-escaped_end :
      (p bs : List ℕ) (sent : List (List ℕ))
      → written (slip_esc ∷ slip_esc_end ∷ p) bs sent ≡ written p (slip_end ∷ bs) sent
  unfolding write_all write_data store_byte
  write_all-escaped_end p bs sent = rw (store_byte-escape bs) refl

  write_all-escaped_esc :
      (p bs : List ℕ) (sent : List (List ℕ))
      → written (slip_esc ∷ slip_esc_esc ∷ p) bs sent ≡ written p (slip_esc ∷ bs) sent
  unfolding write_all write_data store_byte
  write_all-escaped_esc p bs sent = rw (store_byte-escape bs) refl

  write_data-plain :
      (b : ℕ) (bs : List ℕ) (sent : List (List ℕ))
      → (b == slip_end) ≡ false
      → (last bs == slip_esc && (b == slip_esc_end || b == slip_esc_esc)) ≡ false
      → write_data write b (record { sndbuf = bs; sent = sent })
        ≡ some (record { sndbuf = b ∷ bs; sent = sent })
  unfolding write_data
  write_data-plain b bs sent e h =
      rw e (ap (λ cs. some (record { sndbuf = cs; sent = sent })) (store_byte-new b bs h))

  write_all-plain :
      (b : ℕ) (p bs : List ℕ) (sent : List (List ℕ))
      → (b == slip_end) ≡ false
      → (last bs == slip_esc && (b == slip_esc_end || b == slip_esc_esc)) ≡ false
      → written (b ∷ p) bs sent ≡ written p (b ∷ bs) sent
  unfolding write_all
  write_all-plain b p bs sent e h =
      ap (λ o. elim o [ none ↦ none | some t ↦ write_all write p t ])
        (write_data-plain b bs sent e h)

  -- The bytes of a packet reach the buffer one by one.
  write_all-clear :
      (p bs : List ℕ) (sent : List (List ℕ))
      → is_clear (last bs) p ≡ true
      → written (handle_input p) bs sent
        ≡ write_data write slip_end (record { sndbuf = reverse_onto p bs; sent = sent })
  unfolding handle_input is_clear reverse_onto last
  write_all-clear [] bs sent h = write_all-end (record { sndbuf = bs; sent = sent })
  write_all-clear (b ∷ p) bs sent h =
      let clear : is_clear b p ≡ true = ground arith in
      let rest = write_all-clear p (b ∷ bs) sent clear in
      elim (Bool-cases (b == slip_end)) [
        | inl e ↦ rw e (
            write_all-escaped_end (handle_input p) bs sent
            ∙ subst
                (λ c.
                  written (handle_input p) (c ∷ bs) sent
                  ≡ write_data write slip_end
                      (record { sndbuf = reverse_onto p (b ∷ bs); sent = sent }))
                (ground arith) rest)
        | inr e ↦ elim (Bool-cases (b == slip_esc)) [
          | inl f ↦
              rw (e, f)
                (write_all-escaped_esc (handle_input p) bs sent
                  ∙ subst
                      (λ c.
                        written (handle_input p) (c ∷ bs) sent
                        ≡ write_data write slip_end
                            (record { sndbuf = reverse_onto p (b ∷ bs); sent = sent }))
                      (ground arith) rest)
          | inr f ↦ rw (e, f) (write_all-plain b (handle_input p) bs sent e (ground arith) ∙ rest)
        ]
      ]

  sent-packet :
      (p : List ℕ) (s : Slip)
      → ((q : List ℕ) → write q ≡ some (length q))
      → s.sndbuf ≡ reverse_onto p []
      → send_packet write s ≡ some (record { sndbuf = []; sent = p ∷ s.sent })
  unfolding send_packet reverse_onto
  sent-packet p s w e =
      let packet : reverse_onto s.sndbuf [] ≡ p =
        ap (λ bs. reverse_onto bs []) e ∙ reverse_onto-reverse_onto p [] [] ∙ append-nil p in
      rw (send_packet, packet, w p) (ground arith)

  reverse_onto-nonempty : (p bs : List ℕ) (b : ℕ) → is_empty (reverse_onto p (b ∷ bs)) ≡ false
  unfolding reverse_onto is_empty
  reverse_onto-nonempty [] bs b = refl
  reverse_onto-nonempty (c ∷ p) bs b = reverse_onto-nonempty p (b ∷ bs) c

  reverse_onto-first : (b : ℕ) (p : List ℕ) → is_empty (reverse_onto (b ∷ p) []) ≡ false
  unfolding reverse_onto
  reverse_onto-first b p = reverse_onto-nonempty p [] b

  write_data-end :
      (b : ℕ) (p : List ℕ) (sent : List (List ℕ))
      → ((q : List ℕ) → write q ≡ some (length q))
      → write_data write slip_end (record { sndbuf = reverse_onto (b ∷ p) []; sent = sent })
        ≡ some (record { sndbuf = []; sent = (b ∷ p) ∷ sent })
  unfolding write_data
  write_data-end b p sent w =
      let nonempty : is_empty (reverse_onto (b ∷ p) []) ≡ false = reverse_onto-first b p in
      rw nonempty (sent-packet (b ∷ p) _ w refl)

  -- What one device pushes for a packet that has a byte, another device that gets these bytes in turn, with
  -- an empty buffer, sends as the same packet. The packet has no escape byte before one of the bytes that end an
  -- escape sequence, and the system call writes packets whole.
  pub write_all-handle_input :
      (b : ℕ) (p : List ℕ) (sent : List (List ℕ))
      → ((q : List ℕ) → write q ≡ some (length q))
      → is_clear 0 (b ∷ p) ≡ true
      → write_all write (handle_input (b ∷ p)) (record { sndbuf = []; sent = sent })
        ≡ some (record { sndbuf = []; sent = (b ∷ p) ∷ sent })
  unfolding last
  write_all-handle_input b p sent w h =
      write_all-clear (b ∷ p) [] sent h ∙ write_data-end b p sent w

  write_all-confused_bytes :
      (p : List ℕ) (sent : List (List ℕ))
      → written (handle_input (slip_esc ∷ slip_esc_end ∷ p)) [] sent
        ≡ written (handle_input p) (slip_end ∷ []) sent
  unfolding handle_input write_all write_data store_byte
  write_all-confused_bytes p sent = refl

  -- A packet that begins with the escape byte and the byte that ends the escape sequence of the
  -- end byte is sent with the end byte in place of the two, as the packet that begins so is. The
  -- rest of the packet has no escape byte before one of the bytes that end an escape sequence, and the system call writes packets whole.
  pub write_all-confused :
      (p : List ℕ) (sent : List (List ℕ))
      → ((q : List ℕ) → write q ≡ some (length q))
      → is_clear slip_end p ≡ true
      → let s : Slip = record { sndbuf = []; sent = sent } in
        (write_all write (handle_input (slip_esc ∷ slip_esc_end ∷ p)) s
          ≡ some (record { sndbuf = []; sent = (slip_end ∷ p) ∷ sent }))
        × (write_all write (handle_input (slip_end ∷ p)) s
            ≡ write_all write (handle_input (slip_esc ∷ slip_esc_end ∷ p)) s)
  unfolding is_clear last reverse_onto
  write_all-confused p sent w h =
      let clear = write_all-handle_input slip_end p sent w h in
      let confused =
        write_all-confused_bytes p sent
        ∙ write_all-clear p (slip_end ∷ []) sent h
        ∙ write_data-end slip_end p sent w in
      (confused, clear ∙ sym confused)
