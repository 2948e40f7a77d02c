-- ===== src/Base/Digit.antt =====
-- Single binary digits of the results of `&`, `|`, `1 << j` and `~`.
use Prim.Native.Nat.{
  ℕ, zero, suc, ◌+◌, ◌-◌, ◌*◌, ◌/◌, ◌%◌, ◌^◌, ◌≤◌, ◌<◌, min, max, bit_and, bit_or, bit_and-bitwise,
}
use mathlib.Core.Path.{◌≡◌, refl, ap, ◌∙◌}
use mathlib.Core.Logic.{◌↔◌}
use native.Mathlib.Nat.{pow-suc, one-le-pow, pow-le-pow_right}
use native.Mathlib.Omega.{arith}
use dse_vp.Base.Tests.{◌==◌, if◌then◌else◌}
use dse_vp.Base.Bits.{bit_and_lowest, bit_or_lowest}
use dse_vp.Base.Fields.{div-pow-suc, and_field}

abbrev pub digit : ℕ → ℕ → ℕ
digit a k = a / 2 ^ k % 2

pub and-digit : (k a b : ℕ) → digit (bit_and a b) k ≡ min (digit a k) (digit b k)
and-digit zero a b = omega (arith, bit_and_lowest a b)
and-digit (suc k) a b = ground (
  arith,
  bit_and_lowest a b,
  div-pow-suc (bit_and a b) k,
  div-pow-suc a k,
  div-pow-suc b k,
  and-digit k (a / 2) (b / 2),
)

pub or-digit : (k a b : ℕ) → digit (bit_or a b) k ≡ max (digit a k) (digit b k)
or-digit zero a b = omega (arith, bit_or_lowest a b)
or-digit (suc k) a b = ground (
  arith,
  bit_or_lowest a b,
  div-pow-suc (bit_or a b) k,
  div-pow-suc a k,
  div-pow-suc b k,
  or-digit k (a / 2) (b / 2),
)

pub pow-digit : (j k : ℕ) → digit (2 ^ j) k ≡ (if j == k then 1 else 0)
pow-digit zero zero = refl
pow-digit zero (suc k) = ground (arith, div-pow-suc 1 k, zero_div (2 ^ k))
  where
    zero_div : (n : ℕ) → 0 / n ≡ 0
    zero_div n = omega arith
pow-digit (suc j) zero = ground (arith, pow-suc 2 j)
pow-digit (suc j) (suc k) = ground (arith, pow-suc 2 j, div-pow-suc (2 ^ suc j) k, pow-digit j k)

pub not-digit : (n k x : ℕ) → k < n → x < 2 ^ n → digit (2 ^ n - 1 - x) k ≡ 1 - digit x k
not-digit zero k x h w = elim h [ ]
not-digit (suc n) zero x h w = omega (arith, pow-suc 2 n)
not-digit (suc n) (suc k) x h w = ground (
  arith,
  pow-suc 2 n,
  div-pow-suc (2 ^ suc n - 1 - x) k,
  div-pow-suc x k,
  not-digit n k (x / 2) (omega arith) (omega (arith, pow-suc 2 n)),
)

and-le_below : (n a b : ℕ) → a ≤ n → bit_and a b ≤ a
and-le_below zero zero zero h = omega arith
and-le_below zero zero (suc b) h = omega (arith, bit_and-bitwise 0 (suc b))
and-le_below zero (suc a) b h = elim h [ ]
and-le_below (suc n) a b h =
    omega (arith, bit_and_lowest a b, and-le_below n (a / 2) (b / 2) (omega arith))

pub and-le : (a b : ℕ) → bit_and a b ≤ a
and-le a b = and-le_below a a b (omega arith)

and_comm_below : (n a b : ℕ) → a ≤ n → b ≤ n → bit_and a b ≡ bit_and b a
and_comm_below zero a b p q = ground arith
and_comm_below (suc n) a b p q = omega (
  arith,
  bit_and_lowest a b,
  bit_and_lowest b a,
  and_comm_below n (a / 2) (b / 2) (omega arith) (omega arith),
)

pub and_comm : (a b : ℕ) → bit_and a b ≡ bit_and b a
and_comm a b = and_comm_below (a + b) a b (omega arith) (omega arith)

-- A test with `1 << k` tests one digit.
pub and_bit : (a k : ℕ) → bit_and a (2 ^ k) ≡ digit a k * 2 ^ k
and_bit a k = ap (bit_and a) (omega arith) ∙ and_field 1 k a

pub bit_and_iff : (a k : ℕ) → (bit_and a (2 ^ k) ≡ 0) ↔ (digit a k ≡ 0)
bit_and_iff a k =
    (λ e. ground (arith, and_bit a k, one-le-pow k 2), λ e. rw (and_bit a k, e) (omega arith))

pub pow_small : (n : ℕ) → n < 32 → 2 ^ n < 2 ^ 32
pow_small n h =
    let below : 2 ^ n ≤ 2 ^ 31 = pow-le-pow_right (omega arith) {j = 31} (omega arith) in
    omega arith
