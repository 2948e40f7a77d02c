-- ===== src/Base/Bits.antt =====
-- Laws of the binary operations at every width, from one equation for the lowest digit.
use Prim.Native.Nat.{
  ℕ, zero, suc, ◌+◌, ◌*◌, ◌/◌, ◌%◌, ◌≤◌, ◌<◌, min, max, bit_and, bit_or, bit_xor, differ, digits,
  bitwise, bit_and-bitwise, bit_or-bitwise, bit_xor-bitwise,
}
use mathlib.Core.Path.{◌≡◌, refl}
use native.Mathlib.Omega.{arith}

-- The digit recursion does not depend on its fuel.
module _ (rest : ℕ → ℕ) (digit : ℕ → ℕ → ℕ) where
  digits_enough : (n m a b : ℕ) → a ≤ n → a ≤ m → digits rest digit n a b ≡ digits rest digit m a b
  digits_enough zero zero zero b p q = refl
  digits_enough zero (suc m) zero b p q = refl
  digits_enough (suc n) zero zero b p q = refl
  digits_enough (suc n) (suc m) zero b p q = refl
  digits_enough zero m (suc a) b p q = elim p [ ]
  digits_enough (suc n) zero (suc a) b p q = elim q [ ]
  digits_enough (suc n) (suc m) (suc a) b p q =
      omega (arith, digits_enough n m (suc a / 2) (b / 2) (omega arith) (omega arith))

  bitwise_lowest :
      (a b : ℕ)
      → bitwise rest digit (suc a) b
        ≡ bitwise rest digit (suc a / 2) (b / 2) * 2 + digit (suc a % 2) (b % 2)
  bitwise_lowest a b =
      omega (arith, digits_enough a (suc a / 2) (suc a / 2) (b / 2) (omega arith) (omega arith))

-- Exclusive or of two binary digits.
abbrev pub xor_digit : ℕ → ℕ → ℕ
xor_digit a b = (a + b) % 2

differ-xor_digit : (a b : ℕ) → a < 2 → b < 2 → differ a b ≡ xor_digit a b
differ-xor_digit zero zero p q = refl
differ-xor_digit zero (suc zero) p q = refl
differ-xor_digit (suc zero) zero p q = refl
differ-xor_digit (suc zero) (suc zero) p q = refl
differ-xor_digit zero (suc (suc b)) p q = absurd (omega arith)
differ-xor_digit (suc zero) (suc (suc b)) p q = absurd (omega arith)
differ-xor_digit (suc (suc a)) b p q = absurd (omega arith)

pub bit_and_lowest : (a b : ℕ) → bit_and a b ≡ bit_and (a / 2) (b / 2) * 2 + min (a % 2) (b % 2)
bit_and_lowest zero b = simp bit_and-bitwise (omega arith)
bit_and_lowest (suc a) b = simp bit_and-bitwise (bitwise_lowest (λ y. 0) min a b)

pub bit_or_lowest : (a b : ℕ) → bit_or a b ≡ bit_or (a / 2) (b / 2) * 2 + max (a % 2) (b % 2)
bit_or_lowest zero b = simp bit_or-bitwise (omega arith)
bit_or_lowest (suc a) b = simp bit_or-bitwise (bitwise_lowest (λ y. y) max a b)

bit_xor-differ : (a b : ℕ) → bit_xor a b ≡ bit_xor (a / 2) (b / 2) * 2 + differ (a % 2) (b % 2)
bit_xor-differ zero b =
    simp bit_xor-bitwise (omega (arith, differ-xor_digit 0 (b % 2) (omega arith) (omega arith)))
bit_xor-differ (suc a) b = simp bit_xor-bitwise (bitwise_lowest (λ y. y) differ a b)

pub bit_xor_lowest :
    (a b : ℕ) → bit_xor a b ≡ bit_xor (a / 2) (b / 2) * 2 + xor_digit (a % 2) (b % 2)
bit_xor_lowest a b =
    omega (arith, bit_xor-differ a b, differ-xor_digit (a % 2) (b % 2) (omega arith) (omega arith))
