-- ===== src/Crypto/Sm4/Window.antt =====
-- One clocked loop of SM4.cpp on its array, against the sliding window of the reference.
use dse_vp.Base.{
  ℕ, zero, suc, ◌+◌, ◌<◌, ◌≤◌, ◌≡◌, refl, sym, ap, fun_ext, ◌∙◌, Bool, arith, Option, some, none,
}
use native.Mathlib.Decide.{dec_lt}
use dse_vp.Crypto.Feistel.{Window, round, rounds}
use dse_vp.Crypto.Sm4.{Sm4, update, load, next_word, round_f}

abbrev pub window : (ℕ → ℕ) → ℕ → Window
window x n = (x n, x (n + 1), x (n + 2), x (n + 3))

-- `n` clocks of a method.
unfoldable pub clocks : (Sm4 → Option Sm4) → ℕ → Sm4 → Option Sm4
clocks method zero s = some s
clocks method (suc n) s = elim (clocks method n s) [ none ↦ none | some t ↦ method t ]

pub clocks-suc :
    (method : Sm4 → Option Sm4) (n : ℕ) (s : Sm4) {t : Sm4}
    → clocks method n s ≡ some t
    → clocks method (suc n) s ≡ method t
unfolding clocks
clocks-suc method n s e = rw e

module _ (mode : Bool) where
  abbrev pub mode_f : ℕ → ℕ
  mode_f v = round_f v mode

  window-update :
      (x : ℕ → ℕ) (n k : ℕ)
      → window (update x (n + 4) (next_word x n k mode)) (n + 1) ≡ round mode_f k (window x n)
  window-update x n k = ground arith

module _ (a b c d : ℕ) where
  -- The four words that are loaded again are still there.
  load-update :
      (x : ℕ → ℕ) (n v : ℕ)
      → load (update (load x a b c d) (n + 4) v) a b c d ≡ update (load x a b c d) (n + 4) v
  load-update x n v = fun_ext (λ k. ground arith)

module _ (a b c d : ℕ) (key : ℕ → ℕ) (mode : Bool) where
  -- The array after one clock at count `n`, and after `n` clocks from count 0.
  abbrev pub turn : ℕ → (ℕ → ℕ) → ℕ → ℕ
  turn n x = update (load x a b c d) (n + 4) (next_word (load x a b c d) n (key n) mode)

  unfoldable pub turns : ℕ → (ℕ → ℕ) → ℕ → ℕ
  turns zero x = x
  turns (suc n) x = turn n (turns n x)

  window-load-turns :
      (n : ℕ) (x : ℕ → ℕ)
      → window (load (turns n x) a b c d) n ≡ rounds (mode_f mode) key n (a, b, c, d)
  unfolding turns rounds
  window-load-turns zero x = refl
  window-load-turns (suc n) x =
      ap (λ y. window y (suc n)) (load-update a b c d (turns n x) n _)
      ∙ ap (window (turn n (turns n x))) {x = suc n} {y = n + 1} (omega arith)
      ∙ window-update mode (load (turns n x) a b c d) n (key n)
      ∙ ap (round (mode_f mode) (key n)) (window-load-turns n x)

  -- After at least one clock the array holds the reference's window at the count.
  pub window-turns :
      (n : ℕ) (x : ℕ → ℕ)
      → window (turns (suc n) x) (suc n) ≡ rounds (mode_f mode) key (suc n) (a, b, c, d)
  unfolding turns
  window-turns n x =
      ap (λ y. window y (suc n)) (sym (load-update a b c d (turns n x) n _))
      ∙ window-load-turns (suc n) x

  -- One more clock leaves the words below the count alone.
  turns-keep : (m n : ℕ) (x : ℕ → ℕ) → n < suc m + 4 → turns (suc (suc m)) x n ≡ turns (suc m) x n
  unfolding turns
  turns-keep m n x h = ground (arith, ap (λ y. y n) (load-update a b c d (turns m x) m _))

  -- A word is final once the count has reached it.
  pub turns-settled :
      (m n : ℕ) (x : ℕ → ℕ)
      → n ≤ suc m
      → turns (suc m) x n ≡ (rounds (mode_f mode) key n (a, b, c, d)).0
  unfolding turns rounds
  turns-settled zero zero x h = refl
  turns-settled zero (suc zero) x h = ap (λ w. w.0) (window-turns 0 x)
  turns-settled zero (suc (suc n)) x h = absurd (omega arith)
  turns-settled (suc m) n x h = elim (dec_lt n (suc (suc m))) [
    | yes before ↦ turns-keep m n x (omega arith) ∙ turns-settled m n x (omega arith)
    | no reached ↦
        let here : n ≡ suc (suc m) = omega arith in rw here (ap (λ w. w.0) (window-turns (suc m) x))
  ]
