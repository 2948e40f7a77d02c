-- ===== src/Core/Exec/Muldiv.antt =====
-- Multiplication and division of 32-bit words against the integers that they stand for. An integer
-- is written as its magnitude with its sign, and modulo `2 ^ 32`.
pub mod Products
use dse_vp.Base.{
  ℕ, ◌+◌, ◌-◌, ◌*◌, ◌/◌, ◌%◌, ◌^◌, ◌≤◌, ◌<◌, ◌≡◌, ◌∙◌, sym, ap, arith, if◌then◌else◌, ◌==◌, ◌&&◌,
  true, false, Bool, not, ltb, Bool-cases, ◌⊎◌, inl, inr, is_negative,
}
use native.Mathlib.Nat.{mul-le-mul_left}
use dse_vp.Core.Exec.Operands.{
  div, divu, rem, remu, quotient, remainder, magnitude, negate, overflows,
}

pub mul_add_right : (p q b : ℕ) → (p + q) * b ≡ p * b + q * b
mul_add_right p q b = omega arith

-- A product with the negated factor.
negated_mul : (q b : ℕ) → q ≤ 2 ^ 32 → (2 ^ 32 - q) * b + q * b ≡ 2 ^ 32 * b
negated_mul q b h =
    sym (mul_add_right (2 ^ 32 - q) q b) ∙ ap (λ x. x * b) {y = 2 ^ 32} (omega arith)

mul_negated : (q b : ℕ) → b ≤ 2 ^ 32 → q * (2 ^ 32 - b) + q * b ≡ q * 2 ^ 32
mul_negated q b h = omega (arith, negated_mul b q h)

quotient_le : (m n : ℕ) → 0 < n → m / n ≤ m
quotient_le m n h = omega arith

-- The products of a quotient `q` and a remainder `r` under the four signs.
module _ (q r n : ℕ) (small : q * n + r ≤ 2 ^ 31) (n_small : n ≤ 2 ^ 31)
    (q_small : q ≤ 2 ^ 31) where
  negative_positive : 0 < q * n + r → (negate q * n + negate r) % 2 ^ 32 ≡ 2 ^ 32 - (q * n + r)
  negative_positive p = ground (arith, negated_mul q n (omega arith))

  positive_negative : (negate q * (2 ^ 32 - n) + r) % 2 ^ 32 ≡ q * n + r
  positive_negative =
      ground (arith, negated_mul q (2 ^ 32 - n) (omega arith), mul_negated q n (omega arith))

  negative_negative : 0 < q * n + r → (q * (2 ^ 32 - n) + negate r) % 2 ^ 32 ≡ 2 ^ 32 - (q * n + r)
  negative_negative p = ground (arith, mul_negated q n (omega arith))

pub magnitude_le : (a : ℕ) → a < 2 ^ 32 → magnitude a ≤ 2 ^ 31
magnitude_le a h = ground arith

magnitude_pos : (b : ℕ) → b < 2 ^ 32 → 0 < b → 0 < magnitude b
magnitude_pos b h p = ground arith

magnitude-negate : (q : ℕ) → q ≤ 2 ^ 31 → magnitude (negate q) ≡ q
magnitude-negate q h = ground arith

-- The quotient of the magnitudes reaches 2 ^ 31 only by an overflow.
quotient_lt : (m n : ℕ) → 0 < n → m ≤ 2 ^ 31 → ((m == 2 ^ 31) && (n == 1)) ≡ false → m / n < 2 ^ 31
quotient_lt m n p h o = elim (Bool-cases (n == 1)) [
  | inl e ↦ ground (arith, quotient_le m n p)
  | inr e ↦
      let parts : m / n * n + m % n ≡ m = omega arith in
      let twice : m / n * 2 ≤ m / n * n = mul-le-mul_left (m / n) (ground arith) in omega arith
]

-- The quotient and the remainder, when the divisor is not zero and nothing overflows.
module _ (a b : ℕ) (ha : a < 2 ^ 32) (hb : b < 2 ^ 32) (p : 0 < b) (o : overflows a b ≡ false) where
  parts : magnitude a / magnitude b * magnitude b + magnitude a % magnitude b ≡ magnitude a
  parts = let q = magnitude_pos b hb p in omega arith

  small : magnitude a / magnitude b ≤ 2 ^ 31
  small =
      omega
        (arith, quotient_le (magnitude a) (magnitude b) (magnitude_pos b hb p), magnitude_le a ha)

  smaller : is_negative a ≡ is_negative b → magnitude a / magnitude b < 2 ^ 31
  smaller e =
      quotient_lt (magnitude a) (magnitude b) (magnitude_pos b hb p) (magnitude_le a ha)
        (ground arith)

  left : magnitude a % magnitude b < magnitude b
  left = let q = magnitude_pos b hb p in omega arith

  quotient-magnitude : magnitude (quotient a b) ≡ magnitude a / magnitude b
  quotient-magnitude =
      ground (arith, smaller, small, magnitude-negate (magnitude a / magnitude b) small)

  remainder-magnitude : magnitude (remainder a b) ≡ magnitude a % magnitude b
  remainder-magnitude = ground (
    arith,
    left,
    magnitude_le b hb,
    magnitude-negate (magnitude a % magnitude b) (omega (arith, left, magnitude_le b hb)),
  )

  divided : (quotient a b * b + remainder a b) % 2 ^ 32 ≡ a
  divided =
      let m = magnitude a in
      let n = magnitude b in
      let q = m / n in
      let r = m % n in
      let sum : q * n + r ≤ 2 ^ 31 = omega (arith, parts, magnitude_le a ha) in
      let nb : n ≤ 2 ^ 31 = magnitude_le b hb in
      elim (Bool-cases (is_negative a)) [
        | inl e ↦ elim (Bool-cases (is_negative b)) [
          | inl f ↦ ground (arith, parts, negative_negative q r n sum nb small)
          | inr f ↦ ground (arith, parts, negative_positive q r n sum nb small)
        ]
        | inr e ↦ elim (Bool-cases (is_negative b)) [
          | inl f ↦ ground (arith, parts, positive_negative q r n sum nb small)
          | inr f ↦ ground (arith, parts)
        ]
      ]

-- The integers with the magnitudes and signs of `a` and `b` are divided towards zero.
pub record IsDivision (a b q r : ℕ) : Type 0 where
  pub magnitudes : magnitude q * magnitude b + magnitude r ≡ magnitude a
  pub remainder_small : magnitude r < magnitude b
  pub remainder_sign : (r ≡ 0) ⊎ (is_negative r ≡ is_negative a)
  pub quotient_sign :
      (q ≡ 0)
      ⊎ (overflows a b ≡ true)
      ⊎ (is_negative q ≡ (if is_negative a then not (is_negative b) else is_negative b))

quotient-IsDivision :
    (a b : ℕ)
    → a < 2 ^ 32
    → b < 2 ^ 32
    → 0 < b
    → overflows a b ≡ false
    → IsDivision a b (quotient a b) (remainder a b)
quotient-IsDivision a b ha hb p o = record {
  magnitudes =
      rw (quotient-magnitude a b ha hb p o, remainder-magnitude a b ha hb p o)
        (parts a b ha hb p o);
  remainder_small = rw (remainder-magnitude a b ha hb p o) (left a b ha hb p o);
  remainder_sign = ground (arith, left a b ha hb p o, magnitude_le b hb);
  quotient_sign = ground (arith, smaller a b ha hb p o, small a b ha hb p o);
}

-- DIV and REM of two words give a quotient and a remainder, with `quotient * b + remainder = a` in
-- 32-bit arithmetic also when `b` is 0 or when the smallest integer is divided by -1. By 0 the quotient is
-- -1. Otherwise they are those of the integers, rounded towards zero: the equation holds for the
-- magnitudes, the remainder is smaller than `b` in magnitude, the remainder has the sign of `a`
-- unless it is 0, and the quotient the product of the signs, unless it is 0 or the division overflows.
pub div-rem :
    (a b : ℕ)
    → a < 2 ^ 32
    → b < 2 ^ 32
    → ((div a b * b + rem a b) % 2 ^ 32 ≡ a)
      × ((b ≡ 0) × (div a b ≡ 2 ^ 32 - 1) ⊎ IsDivision a b (div a b) (rem a b))
unfolding div rem
div-rem a b ha hb = elim (Bool-cases (b == 0)) [
  | inl z ↦ ground arith
  | inr n ↦ elim (Bool-cases (overflows a b)) [
    | inl o ↦ ground arith
    | inr o ↦ (
      ground (arith, divided a b ha hb (ground arith) o),
      ground (arith, quotient-IsDivision a b ha hb (ground arith) o),
    )
  ]
]
