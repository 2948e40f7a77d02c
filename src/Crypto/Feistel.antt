-- ===== src/Crypto/Feistel.antt =====
-- The reference description of SM4's rounds: a window of four words that slides by one word a
-- round. It says nothing of arrays, clocks or registers.
use native.Mathlib.Nat.{sub-zero}
use dse_vp.Base.{
  ℕ, zero, suc, ◌-◌, ◌≤◌, ◌<◌, ◌^◌, ◌≡◌, sym, ap, ◌∙◌, arith, bit_xor, xor_comm, xor_assoc,
  xor_cancel, xor-lt,
}

abbrev pub Window : Type 0
Window = ℕ × ℕ × ℕ × ℕ

abbrev pub flip : Window → Window
flip (a, b, c, d) = (d, c, b, a)

-- Every word of the window has 32 bits.
abbrev pub IsWords : Window → Type 0
IsWords (a, b, c, d) = (a < 2 ^ 32) × (b < 2 ^ 32) × (c < 2 ^ 32) × (d < 2 ^ 32)

-- What the round function is applied to.
abbrev pub mix4 : ℕ → ℕ → ℕ → ℕ → ℕ
mix4 b c d k = bit_xor (bit_xor (bit_xor b c) d) k

module _ (f : ℕ → ℕ) where
  abbrev pub round : ℕ → Window → Window
  round k (a, b, c, d) = (b, c, d, bit_xor a (f (mix4 b c d k)))

  unfoldable pub rounds : (ℕ → ℕ) → ℕ → Window → Window
  rounds key zero w = w
  rounds key (suc n) w = round (key n) (rounds key n w)

mix4_flip : (b c d k : ℕ) → mix4 d c b k ≡ mix4 b c d k
mix4_flip b c d k =
    ap (λ t. bit_xor t k)
      (ap (λ t. bit_xor t b) (xor_comm d c) ∙ xor_comm (bit_xor c d) b ∙ sym (xor_assoc b c d))

module _ (f : ℕ → ℕ) where
  -- A round undoes itself on the flipped window.
  round-flip-round : (k : ℕ) (w : Window) → round f k (flip (round f k w)) ≡ flip w
  round-flip-round k (a, b, c, d) =
      ap (λ t. (d, c, b, t))
        (ap (λ t. bit_xor (bit_xor a (f (mix4 b c d k))) (f t)) (mix4_flip b c d k)
          ∙ xor_cancel a (f (mix4 b c d k)))

  -- Rounds with the keys in reverse order undo rounds.
  pub rounds-flip-rounds :
      (key back : ℕ → ℕ) (n m : ℕ) (w : Window)
      → m ≤ n
      → ((j : ℕ) → j < n → back j ≡ key (n - suc j))
      → rounds f back m (flip (rounds f key n w)) ≡ flip (rounds f key (n - m) w)
  unfolding rounds
  rounds-flip-rounds key back n zero w h e = rw sub-zero
  rounds-flip-rounds key back n (suc m) w h e =
      let last : n - m ≡ suc (n - suc m) = omega arith in
      ap (round f (back m)) (rounds-flip-rounds key back n m w (omega arith) e)
      ∙ ap (λ t. round f (back m) (flip (rounds f key t w))) last
      ∙ ap (λ k. round f k (flip (rounds f key (suc (n - suc m)) w))) (e m (omega arith))
      ∙ round-flip-round (key (n - suc m)) (rounds f key (n - suc m) w)

  pub rounds-IsWords :
      ((v : ℕ) → f v < 2 ^ 32)
      → (key : ℕ → ℕ) (n : ℕ) (w : Window) → IsWords w
      → IsWords (rounds f key n w)
  unfolding rounds
  rounds-IsWords h key zero w e = e
  rounds-IsWords h key (suc n) w e =
      let ih = rounds-IsWords h key n w e in (ih.1, ih.2, ih.3, xor-lt 32 _ _ ih.0 (h _))
