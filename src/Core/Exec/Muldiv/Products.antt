-- ===== src/Core/Exec/Muldiv/Products.antt =====
-- The products of the multiplication instructions.
use native.Mathlib.Nat.{mul-le-mul}
use dse_vp.Base.{
  ℕ, ◌+◌, ◌-◌, ◌*◌, ◌/◌, ◌%◌, ◌^◌, ◌≤◌, ◌<◌, ◌≡◌, ◌∙◌, sym, ap, ap₂, ◌⊎◌, arith, if◌then◌else◌,
  Bool, not, Bool-cases, inl, inr, is_negative, and_low, and_field,
}
use dse_vp.Core.Exec.Operands.{mul, mulh, mulhu, mulhsu, high_half, signed64, magnitude}
use dse_vp.Core.Exec.Muldiv.{mul_add_right, magnitude_le}

complement_mul : (q b : ℕ) → q ≤ 2 ^ 64 → (2 ^ 64 - q) * b + q * b ≡ 2 ^ 64 * b
complement_mul q b h =
    sym (mul_add_right (2 ^ 64 - q) q b) ∙ ap (λ x. x * b) {y = 2 ^ 64} (omega arith)

-- The two halves of a 64-bit number.
high-eq : (a b : ℕ) → high_half a b ≡ a * b % 2 ^ 64 / 2 ^ 32
high-eq a b = omega (arith, and_field 32 32 (a * b % 2 ^ 64))

mul-eq : (a b : ℕ) → mul a b ≡ signed64 a * signed64 b % 2 ^ 32
unfolding mul
mul-eq a b = and_low 32 (signed64 a * signed64 b % 2 ^ 64) ∙ omega arith

-- A product of integers, modulo `2 ^ 64`.
abbrev pub signed : Bool → ℕ → ℕ
signed negative n = if negative then (2 ^ 64 - n) % 2 ^ 64 else n

magnitudes_le : (a b : ℕ) → a < 2 ^ 32 → b < 2 ^ 32 → magnitude a * b ≤ 2 ^ 31 * 2 ^ 32
magnitudes_le a b ha hb = mul-le-mul {m₂ = 2 ^ 32} (magnitude_le a ha) (omega arith)

signed_product :
    (a b : ℕ)
    → a < 2 ^ 32
    → b < 2 ^ 32
    → signed64 a * b % 2 ^ 64 ≡ signed (is_negative a) (magnitude a * b)
signed_product a b ha hb =
    ground (arith, complement_mul (magnitude a) b (ground arith), magnitudes_le a b ha hb)

both_le : (a b : ℕ) → a < 2 ^ 32 → b < 2 ^ 32 → magnitude a * magnitude b ≤ 2 ^ 31 * 2 ^ 31
both_le a b ha hb = mul-le-mul (magnitude_le a ha) (magnitude_le b hb)

abbrev pub differ : ℕ → ℕ → Bool
differ a b = if is_negative a then not (is_negative b) else is_negative b

both_signed :
    (a b : ℕ)
    → a < 2 ^ 32
    → b < 2 ^ 32
    → signed64 a * signed64 b % 2 ^ 64 ≡ signed (differ a b) (magnitude a * magnitude b)
both_signed a b ha hb =
    let m = magnitude a in
    let n = magnitude b in
    let le = both_le a b ha hb in
    let left : m ≤ 2 ^ 31 = magnitude_le a ha in
    let right : n ≤ 2 ^ 31 = magnitude_le b hb in
    elim (Bool-cases (is_negative a)) [
      | inl e ↦ elim (Bool-cases (is_negative b)) [
        | inl f ↦
            ground
              (arith, complement_mul m (2 ^ 64 - n) (omega arith), complement_mul n m (omega arith))
        | inr f ↦ ground (arith, complement_mul m n (omega arith))
      ]
      | inr e ↦ elim (Bool-cases (is_negative b)) [
        | inl f ↦ ground (arith, complement_mul n m (omega arith))
        | inr f ↦ ground arith
      ]
    ]

signed64_cases : (a : ℕ) → (signed64 a ≡ a) ⊎ (signed64 a ≡ a + 0xFFFFFFFF00000000)
signed64_cases a = ground arith

low_product : (a b : ℕ) → mul a b ≡ a * b % 2 ^ 32
low_product a b =
    let times : ℕ → ℕ → ℕ = λ x y. x * y % 2 ^ 32 in
    mul-eq a b ∙ elim (signed64_cases a) [
      | inl e ↦ elim (signed64_cases b) [
        | inl f ↦ ap₂ times e f
        | inr f ↦ ap₂ times e f ∙ omega arith
      ]
      | inr e ↦ elim (signed64_cases b) [
        | inl f ↦ ap₂ times e f ∙ omega arith
        | inr f ↦ ap₂ times e f ∙ omega arith
      ]
    ]

low_mixed : (a b : ℕ) → signed64 a * b % 2 ^ 32 ≡ a * b % 2 ^ 32
low_mixed a b = elim (signed64_cases a) [
  | inl e ↦ ap (λ x. x * b % 2 ^ 32) e
  | inr e ↦ ap (λ x. x * b % 2 ^ 32) e ∙ omega arith
]

joined :
    (high low p : ℕ) → p < 2 ^ 64 → high ≡ p / 2 ^ 32 → low ≡ p % 2 ^ 32 → high * 2 ^ 32 + low ≡ p
joined high low p h e f = omega arith

-- MULH, MULHU and MULHSU with MUL as the low half are the 64-bit products of the two words read as
-- signed, as unsigned, and as a signed and an unsigned integer; a negative product is its 64-bit
-- complement.
pub mulh-mul :
    (a b : ℕ)
    → a < 2 ^ 32
    → b < 2 ^ 32
    → (mulh a b * 2 ^ 32 + mul a b ≡ signed (differ a b) (magnitude a * magnitude b))
      × (mulhu a b * 2 ^ 32 + mul a b ≡ a * b)
      × (mulhsu a b * 2 ^ 32 + mul a b ≡ signed (is_negative a) (magnitude a * b))
unfolding mulh mulhu mulhsu
mulh-mul a b ha hb =
    let both = both_signed a b ha hb in
    let mixed = signed_product a b ha hb in
    let plain : a * b ≤ (2 ^ 32 - 1) * (2 ^ 32 - 1) =
      mul-le-mul {n₂ = 2 ^ 32 - 1} {m₂ = 2 ^ 32 - 1} (omega arith) (omega arith) in
    (
      joined _ _ _ (omega (arith, both)) (high-eq _ _ ∙ ap (λ x. x / 2 ^ 32) both)
          (omega (arith, both, mul-eq a b)),
      joined _ _ _ (omega arith) (high-eq a b ∙ omega arith) (low_product a b),
      joined _ _ _ (omega (arith, mixed)) (high-eq _ _ ∙ ap (λ x. x / 2 ^ 32) mixed)
          (omega (arith, mixed, low_product a b, low_mixed a b)),
    )
