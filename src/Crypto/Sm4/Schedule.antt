-- ===== src/Crypto/Sm4/Schedule.antt =====
-- `KeyExp` over its 32 clocks.
use dse_vp.Base.{
  ℕ, zero, suc, ◌+◌, ◌<◌, ◌≤◌, ◌≡◌, refl, ap, ◌∙◌, ◌⊎◌, inl, inr, true, some, bit_xor, get_or,
  arith, lt→ltb, ◌==◌, if◌then◌else◌,
}
use native.Mathlib.Decide.{dec_lt}
use dse_vp.Crypto.Tables.{fk, ck}
use dse_vp.Crypto.Feistel.{Window, rounds}
use dse_vp.Crypto.Sm4.{Sm4, Pins, word_of, key_exp, key_round, load_key}
use dse_vp.Crypto.Sm4.Window.{clocks, mode_f, turns, clocks-suc, window-turns, turns-settled}

-- The user key as four words, each combined with the system parameter.
abbrev pub key_window : ℕ → Window
key_window key = (
  bit_xor (word_of key 3) (get_or fk 0 0),
  bit_xor (word_of key 2) (get_or fk 1 0),
  bit_xor (word_of key 1) (get_or fk 2 0),
  bit_xor (word_of key 0) (get_or fk 3 0),
)

last_words : (n : ℕ) → 33 ≤ n → n < 36 → (n ≡ 33) ⊎ ((n ≡ 34) ⊎ (n ≡ 35))
last_words n low high = grind arith

-- What `KeyExp` computes in reference terms: word `n` of the key schedule.
abbrev pub schedule : ℕ → ℕ → ℕ
schedule key n = (rounds (mode_f true) (λ k. get_or ck k 0) n (key_window key)).0

module _ (p : Pins) where
  abbrev expanded : ℕ → (ℕ → ℕ) → ℕ → ℕ
  expanded n rk =
      let (a, b, c, d) = key_window p.key_in in turns a b c d (λ k. get_or ck k 0) true n rk

  key_exp_enabled :
      (t : Sm4)
      → p.rst_in ≡ true
      → p.key_exp_en_in ≡ true
      → t.i < 32
      → key_exp p t ≡ some (key_round p t)
  unfolding key_exp
  key_exp_enabled t up enabled h = rw (up, enabled, lt→ltb t.i 32 h)

  module _ (s : Sm4) (up : p.rst_in ≡ true) (enabled : p.key_exp_en_in ≡ true)
      (start : s.i ≡ 0) where
    key_round_turn :
        (n : ℕ)
        → key_round p (record s { rk = expanded n s.rk; i = n }) ≡ record s {
          rk = expanded (suc n) s.rk;
          i = n + 1;
          rk_ready = if n + 1 == 32 then true else s.rk_ready;
        }
    unfolding turns key_round load_key
    key_round_turn n = refl

    clocks-key_exp :
        (n : ℕ) → n < 32 → clocks (key_exp p) n s ≡ some (record s { rk = expanded n s.rk; i = n })
    unfolding clocks turns
    clocks-key_exp zero h = λ k. some (record s { i = start k })
    clocks-key_exp (suc n) h =
        let count : n + 1 ≡ suc n = omega arith in
        let waits : (if n + 1 == 32 then true else s.rk_ready) ≡ s.rk_ready = ground arith in
        clocks-suc (key_exp p) n s (clocks-key_exp n (omega arith))
        ∙ key_exp_enabled (record s { rk = expanded n s.rk; i = n }) up enabled (omega arith)
        ∙ ap some (key_round_turn n)
        ∙ (λ k. some (record s { rk = expanded (suc n) s.rk; i = count k; rk_ready = waits k }))

    key_exp_done :
        clocks (key_exp p) 32 s ≡ some (record s { rk = expanded 32 s.rk; i = 32; rk_ready = true })
    key_exp_done =
        clocks-suc (key_exp p) 31 s (clocks-key_exp 31 (omega arith))
        ∙ key_exp_enabled (record s { rk = expanded 31 s.rk; i = 31 }) up enabled (omega arith)
        ∙ ap some (key_round_turn 31)

    schedule-expanded : (n : ℕ) → n < 36 → expanded 32 s.rk n ≡ schedule p.key_in n
    unfolding rounds
    schedule-expanded n h =
        let (a, b, c, d) = key_window p.key_in in
        let last = window-turns a b c d (λ k. get_or ck k 0) true 31 s.rk in
        elim (dec_lt n 33) [
          | yes settled ↦ turns-settled a b c d (λ k. get_or ck k 0) true 31 n s.rk (omega arith)
          | no high ↦ elim (last_words n (omega arith) h) [
            | inl e ↦ rw e (ap (λ w. w.1) last)
            | inr (inl e) ↦ rw e (ap (λ w. w.2) last)
            | inr (inr e) ↦ rw e (ap (λ w. w.3) last)
          ]
        ]

    -- Out of reset and from count 0, 32 enabled clocks of `KeyExp` raise `rk_ready` and leave in
    -- all 36 words of `rk` the key schedule of the reference.
    pub key_exp-schedule :
        (t : Sm4) × (clocks (key_exp p) 32 s ≡ some t)
        × (t.rk_ready ≡ true)
        × ((n : ℕ) → n < 36 → t.rk n ≡ schedule p.key_in n)
    key_exp-schedule = (
      record s { rk = expanded 32 s.rk; i = 32; rk_ready = true },
      key_exp_done,
      refl,
      schedule-expanded,
    )
