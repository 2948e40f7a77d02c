-- ===== src/Base/Rotate.antt =====
-- Rotation of a 32-bit word, written with `^` or with `|`, as a sum of its two parts.
use Prim.Native.Nat.{ℕ, ◌+◌, ◌-◌, ◌*◌, ◌/◌, ◌%◌, ◌^◌, ◌≤◌, ◌<◌, bit_or, bit_xor}
use mathlib.Core.Path.{◌≡◌, ap, ap₂, ◌∙◌}
use native.Mathlib.Nat.{
  mod-eq_of_lt, mod-add-div, mul-div-mul_right, div-lt_iff_lt-mul, one-le-pow, mul_comm,
}
use native.Mathlib.Omega.{arith}
use dse_vp.Base.Word.{u32, ◌<<◌, ◌>>◌}
use dse_vp.Base.Fields.{pow-add, or_low}
use dse_vp.Base.Xor.{xor-mod, xor_low}

mul-mod-mul : (a b c : ℕ) → 0 < c → a * c % (b * c) ≡ a % b * c
mul-mod-mul a b c h = omega (
  arith,
  mod-add-div (a * c) (b * c),
  ap (λ (q : ℕ). b * c * q) (mul-div-mul_right {m = c} a b h),
  ap (λ (t : ℕ). t * c) (mod-add-div a b),
)

module _ (x n : ℕ) (word : x < 2 ^ 32) (short : n ≤ 32) where
  split_pow : 2 ^ 32 ≡ 2 ^ (32 - n) * 2 ^ n
  split_pow = ap (λ (k : ℕ). 2 ^ k) {x = 32} {y = 32 - n + n} (omega arith) ∙ pow-add 2 (32 - n) n

  -- What is left of `x << n` in 32 bits.
  high : u32 (x << n) ≡ x % 2 ^ (32 - n) * 2 ^ n
  high =
      ap (λ (m : ℕ). x * 2 ^ n % m) split_pow
      ∙ mul-mod-mul x (2 ^ (32 - n)) (2 ^ n) (one-le-pow n 2 (omega arith))

  low : x >> (32 - n) < 2 ^ n
  low =
      (div-lt_iff_lt-mul (one-le-pow (32 - n) 2 (omega arith))).1
        (omega (arith, split_pow, mul_comm (2 ^ n) (2 ^ (32 - n))))

  low-lt : x >> (32 - n) < 2 ^ 32
  low-lt = omega arith

  pub rotate_or :
      bit_or (u32 (x << n)) (x >> (32 - n)) ≡ x % 2 ^ (32 - n) * 2 ^ n + x / 2 ^ (32 - n)
  rotate_or = rw high (or_low n _ _ low)

  pub rotate_xor :
      u32 (bit_xor (x << n) (x >> (32 - n))) ≡ x % 2 ^ (32 - n) * 2 ^ n + x / 2 ^ (32 - n)
  rotate_xor =
      xor-mod 32 (x << n) (x >> (32 - n))
      ∙ ap₂ bit_xor high (mod-eq_of_lt low-lt)
      ∙ xor_low n _ _ low
