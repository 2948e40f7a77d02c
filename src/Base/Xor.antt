-- ===== src/Base/Xor.antt =====
-- Exclusive or is a commutative group of exponent two on the words of each width.
use Prim.Native.Nat.{ℕ, zero, suc, ◌+◌, ◌*◌, ◌/◌, ◌%◌, ◌^◌, ◌≤◌, ◌<◌, bit_xor}
use mathlib.Core.Path.{◌≡◌, refl}
use native.Mathlib.Nat.{pow-suc, mod-one}
use native.Mathlib.Omega.{arith}
use dse_vp.Base.Bits.{bit_xor_lowest}
use dse_vp.Base.Fields.{mod-pow-suc, mul-pow-suc}

xor_comm_below : (n a b : ℕ) → a ≤ n → b ≤ n → bit_xor a b ≡ bit_xor b a
xor_comm_below zero a b p q = ground arith
xor_comm_below (suc n) a b p q = omega (
  arith,
  bit_xor_lowest a b,
  bit_xor_lowest b a,
  xor_comm_below n (a / 2) (b / 2) (omega arith) (omega arith),
)

pub xor_comm : (a b : ℕ) → bit_xor a b ≡ bit_xor b a
xor_comm a b = xor_comm_below (a + b) a b (omega arith) (omega arith)

zero-xor_below : (n b : ℕ) → b ≤ n → bit_xor 0 b ≡ b
zero-xor_below zero zero p = refl
zero-xor_below zero (suc b) p = elim p [ ]
zero-xor_below (suc n) b p =
    omega (arith, bit_xor_lowest 0 b, zero-xor_below n (b / 2) (omega arith))

pub zero-xor : (b : ℕ) → bit_xor 0 b ≡ b
zero-xor b = zero-xor_below b b (omega arith)

xor_self_below : (n a : ℕ) → a ≤ n → bit_xor a a ≡ 0
xor_self_below zero zero p = refl
xor_self_below zero (suc a) p = elim p [ ]
xor_self_below (suc n) a p =
    omega (arith, bit_xor_lowest a a, xor_self_below n (a / 2) (omega arith))

pub xor_self : (a : ℕ) → bit_xor a a ≡ 0
xor_self a = xor_self_below a a (omega arith)

xor_assoc_below :
    (n a b c : ℕ) → a ≤ n → b ≤ n → c ≤ n → bit_xor (bit_xor a b) c ≡ bit_xor a (bit_xor b c)
xor_assoc_below zero zero zero zero p q r = refl
xor_assoc_below zero (suc a) b c p q r = elim p [ ]
xor_assoc_below zero zero (suc b) c p q r = elim q [ ]
xor_assoc_below zero zero zero (suc c) p q r = elim r [ ]
xor_assoc_below (suc n) a b c p q r = ground (
  arith,
  bit_xor_lowest a b,
  bit_xor_lowest b c,
  bit_xor_lowest (bit_xor a b) c,
  bit_xor_lowest a (bit_xor b c),
  xor_assoc_below n (a / 2) (b / 2) (c / 2) (omega arith) (omega arith) (omega arith),
)

pub xor_assoc : (a b c : ℕ) → bit_xor (bit_xor a b) c ≡ bit_xor a (bit_xor b c)
xor_assoc a b c = xor_assoc_below (a + b + c) a b c (omega arith) (omega arith) (omega arith)

-- What is added twice is gone.
pub xor_cancel : (a b : ℕ) → bit_xor (bit_xor a b) b ≡ a
xor_cancel a b = rw (xor_assoc a b b, xor_self b, xor_comm a 0, zero-xor a)

pub xor-lt : (k a b : ℕ) → a < 2 ^ k → b < 2 ^ k → bit_xor a b < 2 ^ k
xor-lt zero zero zero p q = omega arith
xor-lt zero (suc a) b p q = absurd (omega arith)
xor-lt zero zero (suc b) p q = absurd (omega arith)
xor-lt (suc k) a b p q = omega (
  arith,
  pow-suc 2 k,
  bit_xor_lowest a b,
  xor-lt k (a / 2) (b / 2) (omega (arith, pow-suc 2 k)) (omega (arith, pow-suc 2 k)),
)

-- Exclusive or is taken digit by digit, so it commutes with dropping high digits.
pub xor-mod : (k a b : ℕ) → bit_xor a b % 2 ^ k ≡ bit_xor (a % 2 ^ k) (b % 2 ^ k)
xor-mod zero a b = rw (mod-one (bit_xor a b), mod-one a, mod-one b)
xor-mod (suc k) a b = ground (
  arith,
  mod-pow-suc a k,
  mod-pow-suc b k,
  mod-pow-suc (bit_xor a b) k,
  bit_xor_lowest a b,
  bit_xor_lowest (a % 2 ^ suc k) (b % 2 ^ suc k),
  xor-mod k (a / 2) (b / 2),
)

-- With a number that fits below its zero digits it is a sum.
pub xor_low : (k q r : ℕ) → r < 2 ^ k → bit_xor (q * 2 ^ k) r ≡ q * 2 ^ k + r
xor_low zero q zero h = ground (arith, xor_comm q 0, zero-xor q)
xor_low zero q (suc r) h = absurd (omega arith)
xor_low (suc k) q r h = ground (
  arith,
  bit_xor_lowest (q * 2 ^ suc k) r,
  mul-pow-suc q k,
  xor_low k q (r / 2) (omega (arith, pow-suc 2 k)),
)
