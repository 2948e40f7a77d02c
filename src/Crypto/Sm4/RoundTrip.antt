-- ===== src/Crypto/Sm4/RoundTrip.antt =====
-- `EncDec` over its 32 clocks, in both directions.
use dse_vp.Base.{
  ℕ, zero, suc, ◌+◌, ◌-◌, ◌/◌, ◌%◌, ◌^◌, ◌<◌, ◌≡◌, refl, ap, ◌∙◌, Bool, true, false, none, some,
  arith, xor-lt, ◌↔◌, lt→ltb, ◌==◌, if◌then◌else◌,
}
use dse_vp.Crypto.Tables.{sbox-lt}
use dse_vp.Crypto.Feistel.{Window, flip, IsWords, rounds, rounds-flip-rounds, rounds-IsWords}
use dse_vp.Crypto.Sm4.{
  Sm4, Pins, word_of, concat4, round_f, tau, shift, enc_dec, enc_round, dec_round, load_data,
  result,
}
use dse_vp.Crypto.Sm4.Window.{clocks, mode_f, turns, clocks-suc, window-turns}

abbrev pub words : ℕ → Window
words v = (word_of v 3, word_of v 2, word_of v 1, word_of v 0)

abbrev pub pack : Window → ℕ
pack (a, b, c, d) = concat4 a b c d

words-pack : (w : Window) → IsWords w → words (pack w) ≡ w
words-pack (a, b, c, d) h = ground arith

pack-words : (v : ℕ) → v < 2 ^ 128 → pack (words v) ≡ v
pack-words v h = omega arith

-- The round keys in the order in which each direction uses them.
abbrev pub cipher_key : Bool → (ℕ → ℕ) → ℕ → ℕ
cipher_key true rk j = rk (j + 4)
cipher_key false rk j = rk (35 - j)

-- The reference's output block.
pub cipher : Bool → (ℕ → ℕ) → ℕ → ℕ
cipher mode rk v = pack (flip (rounds (mode_f false) (cipher_key mode rk) 32 (words v)))

abbrev finished : Bool → (ℕ → ℕ) → ℕ → Sm4 → Sm4
finished true x v s = record s { x = x; j = 0; encdata_ready = true; data_out = v }
finished false x v s = record s { x = x; j = 32; decdata_ready = true; data_out = v }

abbrev one_round : Bool → Pins → Sm4 → Sm4
one_round true = enc_round
one_round false = dec_round

module _ (p : Pins) where
  abbrev filled : Bool → (ℕ → ℕ) → ℕ → (ℕ → ℕ) → ℕ → ℕ
  filled mode rk n x =
      let (a, b, c, d) = words p.data_in in turns a b c d (cipher_key mode rk) false n x

  enc_dec_enabled :
      (mode : Bool) (t : Sm4)
      → p.rst_in ≡ true
      → p.enc_dec_en_in ≡ true
      → p.mode_in ≡ mode
      → t.j < 32
      → enc_dec p t ≡ some (one_round mode p t)
  unfolding enc_dec
  enc_dec_enabled true t up enabled m h = rw (up, enabled, m, lt→ltb t.j 32 h)
  enc_dec_enabled false t up enabled m h = rw (up, enabled, m, lt→ltb t.j 32 h)

  one_round_turn :
      (mode : Bool) (n : ℕ) (s : Sm4)
      → (n + 1 == 32) ≡ false
      → one_round mode p (record s { x = filled mode s.rk n s.x; j = n })
        ≡ record s { x = filled mode s.rk (suc n) s.x; j = n + 1 }
  unfolding turns enc_round dec_round load_data
  one_round_turn true n s h = rw h
  one_round_turn false n s h = rw h

  last_turn :
      (mode : Bool) (s : Sm4)
      → one_round mode p (record s { x = filled mode s.rk 31 s.x; j = 31 })
        ≡ finished mode (filled mode s.rk 32 s.x) (result (filled mode s.rk 32 s.x)) s
  unfolding turns enc_round dec_round load_data
  last_turn true s = refl
  last_turn false s = refl

  result-filled :
      (mode : Bool) (s : Sm4) → result (filled mode s.rk 32 s.x) ≡ cipher mode s.rk p.data_in
  unfolding result cipher
  result-filled mode s =
      let (a, b, c, d) = words p.data_in in
      ap (λ w. pack (flip w)) (window-turns a b c d (cipher_key mode s.rk) false 31 s.x)

  module _ (mode : Bool) (s : Sm4) (up : p.rst_in ≡ true) (enabled : p.enc_dec_en_in ≡ true)
      (m : p.mode_in ≡ mode) (start : s.j ≡ 0) where
    clocks-enc_dec :
        (n : ℕ)
        → n < 32
        → clocks (enc_dec p) n s ≡ some (record s { x = filled mode s.rk n s.x; j = n })
    unfolding clocks turns
    clocks-enc_dec zero h = λ k. some (record s { j = start k })
    clocks-enc_dec (suc n) h =
        let count : n + 1 ≡ suc n = omega arith in
        clocks-suc (enc_dec p) n s (clocks-enc_dec n (omega arith))
        ∙ enc_dec_enabled mode (record s { x = filled mode s.rk n s.x; j = n }) up enabled m
            (omega arith)
        ∙ ap some (one_round_turn mode n s (ground arith))
        ∙ (λ k. some (record s { x = filled mode s.rk (suc n) s.x; j = count k }))

    enc_dec_done :
        clocks (enc_dec p) 32 s
        ≡ some (finished mode (filled mode s.rk 32 s.x) (cipher mode s.rk p.data_in) s)
    enc_dec_done =
        clocks-suc (enc_dec p) 31 s (clocks-enc_dec 31 (omega arith))
        ∙ enc_dec_enabled mode (record s { x = filled mode s.rk 31 s.x; j = 31 }) up enabled m
            (omega arith)
        ∙ ap some (last_turn mode s)
        ∙ ap (λ v. some (finished mode (filled mode s.rk 32 s.x) v s)) (result-filled mode s)

-- The four bytes of the substituted word.
pub tau-lt : (v : ℕ) → tau v < 2 ^ 32
unfolding tau
tau-lt v = omega (
  arith,
  sbox-lt (v / 2 ^ 24 % 2 ^ 8),
  sbox-lt (v / 2 ^ 16 % 2 ^ 8),
  sbox-lt (v / 2 ^ 8 % 2 ^ 8),
  sbox-lt (v % 2 ^ 8),
)

shift-lt : (v n : ℕ) → shift v n < 2 ^ 32
unfolding shift
shift-lt v n = omega arith

pub round_f-lt : (v : ℕ) (mode : Bool) → round_f v mode < 2 ^ 32
unfolding round_f
round_f-lt v true = search (xor-lt 32, tau-lt, shift-lt)
round_f-lt v false = search (xor-lt 32, tau-lt, shift-lt)

-- Deciphering the reference's cipher text with the same round keys gives the block back.
cipher-cipher : (rk : ℕ → ℕ) (v : ℕ) → v < 2 ^ 128 → cipher false rk (cipher true rk v) ≡ v
unfolding cipher rounds
cipher-cipher rk v small =
    let f = mode_f false in
    let coded = rounds f (cipher_key true rk) 32 (words v) in
    let ok =
      rounds-IsWords f (λ u. round_f-lt u false) (cipher_key true rk) 32 (words v) (omega arith) in
    ap (λ w. pack (flip (rounds f (cipher_key false rk) 32 w)))
      (words-pack (flip coded) (ok.3, ok.2, ok.1, ok.0))
    ∙ ap (λ w. pack (flip w))
        (rounds-flip-rounds f (cipher_key true rk) (cipher_key false rk) 32 32 (words v)
          (omega arith) (λ j h. ap rk (omega arith)))
    ∙ pack-words v small

-- Out of reset, from count 0 and with a 128-bit input, 32 enabled clocks in mode encrypt raise
-- `Encdata_ready` and put out a block which 32 further enabled clocks in mode decrypt, with the
-- same round keys, turn back into the input, with `Decdata_ready` raised.
pub decrypt-encrypt :
    (p : Pins) (s : Sm4)
    → p.rst_in ≡ true
    → p.enc_dec_en_in ≡ true
    → p.mode_in ≡ true
    → s.j ≡ 0
    → p.data_in < 2 ^ 128
    → (t : Sm4) × (u : Sm4) × (clocks (enc_dec p) 32 s ≡ some t)
      × (t.encdata_ready ≡ true)
      × (clocks (enc_dec (record p { mode_in = false; data_in = t.data_out })) 32 t ≡ some u)
      × (u.decdata_ready ≡ true)
      × (u.data_out ≡ p.data_in)
decrypt-encrypt p s up enabled m start small =
    let coded = cipher true s.rk p.data_in in
    let t = finished true (filled p true s.rk 32 s.x) coded s in
    let q = record p { mode_in = false; data_in = coded } in
    (
      t,
      finished false (filled q false s.rk 32 t.x) (cipher false s.rk coded) t,
      enc_dec_done p true s up enabled m start,
      refl,
      enc_dec_done q false t up enabled refl refl,
      refl,
      cipher-cipher s.rk p.data_in small,
    )

-- Out of reset and from count 0, 32 enabled clocks of `EncDec` in one mode succeed. In mode encrypt
-- the counter is then 0 and a further clock succeeds; in mode decrypt it is 32 and a further clock
-- indexes past the end of `X`.
decrypt_overrun :
    (p : Pins) (mode : Bool) (s : Sm4)
    → p.rst_in ≡ true
    → p.enc_dec_en_in ≡ true
    → p.mode_in ≡ mode
    → s.j ≡ 0
    → (t : Sm4) × (clocks (enc_dec p) 32 s ≡ some t)
      × (t.j ≡ (if mode then 0 else 32))
      × ((enc_dec p t ≡ none) ↔ (mode ≡ false))
unfolding enc_dec
decrypt_overrun p true s up enabled m start = (
  finished true (filled p true s.rk 32 s.x) (cipher true s.rk p.data_in) s,
  enc_dec_done p true s up enabled m start,
  refl,
  (ground arith, λ e. cc),
)
decrypt_overrun p false s up enabled m start = (
  finished false (filled p false s.rk 32 s.x) (cipher false s.rk p.data_in) s,
  enc_dec_done p false s up enabled m start,
  refl,
  (λ _. refl, λ _. rw (up, enabled)),
)
