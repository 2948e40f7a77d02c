-- ===== src/Base/Fields.antt =====
-- Masks and disjoint fields, as arithmetic, at every width and position.
use Prim.Native.Nat.{ℕ, zero, suc, ◌+◌, ◌-◌, ◌*◌, ◌/◌, ◌%◌, ◌^◌, ◌≤◌, ◌<◌, bit_and, bit_or}
use mathlib.Core.Path.{◌≡◌, refl, ap, sym, ◌∙◌}
use native.Mathlib.Nat.{
  pow-suc, pow-zero, add-zero, add-suc, mul_assoc, one-le-pow, div-div-eq-div-mul,
  mod-eq-sub-mul-div, mod-add-div,
}
use native.Mathlib.Omega.{arith}
use dse_vp.Base.Bits.{bit_and_lowest, bit_or_lowest}

pub div-pow-suc : (a k : ℕ) → a / 2 / 2 ^ k ≡ a / 2 ^ suc k
div-pow-suc a k = div-div-eq-div-mul a 2 (2 ^ k) ∙ ap (λ t. a / t) (omega (arith, pow-suc 2 k))

pub mul-pow-suc : (m k : ℕ) → m * 2 ^ suc k ≡ m * 2 ^ k * 2
mul-pow-suc m k = omega (arith, ap (λ (t : ℕ). m * t) (pow-suc 2 k))

and-zero_below : (n a : ℕ) → a ≤ n → bit_and a 0 ≡ 0
and-zero_below zero zero p = refl
and-zero_below zero (suc a) p = elim p [ ]
and-zero_below (suc n) a p =
    omega (arith, bit_and_lowest a 0, and-zero_below n (a / 2) (omega arith))

pub and-zero : (a : ℕ) → bit_and a 0 ≡ 0
and-zero a = and-zero_below a a (omega arith)

or-zero_below : (n a : ℕ) → a ≤ n → bit_or a 0 ≡ a
or-zero_below zero zero p = refl
or-zero_below zero (suc a) p = elim p [ ]
or-zero_below (suc n) a p = omega (arith, bit_or_lowest a 0, or-zero_below n (a / 2) (omega arith))

pub or-zero : (a : ℕ) → bit_or a 0 ≡ a
or-zero a = or-zero_below a a (omega arith)

or_comm_below : (n a b : ℕ) → a ≤ n → b ≤ n → bit_or a b ≡ bit_or b a
or_comm_below zero a b p q = ground arith
or_comm_below (suc n) a b p q = omega (
  arith,
  bit_or_lowest a b,
  bit_or_lowest b a,
  or_comm_below n (a / 2) (b / 2) (omega arith) (omega arith),
)

pub or_comm : (a b : ℕ) → bit_or a b ≡ bit_or b a
or_comm a b = or_comm_below (a + b) a b (omega arith) (omega arith)

pub mod-pow-suc : (a w : ℕ) → a % 2 ^ suc w ≡ a / 2 % 2 ^ w * 2 + a % 2
mod-pow-suc a w = grind (
  arith,
  pow-suc 2 w,
  one-le-pow w 2,
  div-pow-suc a w,
  mod-eq-sub-mul-div a (2 ^ suc w),
  mod-eq-sub-mul-div (a / 2) (2 ^ w),
  mul-pow-suc (a / 2 ^ suc w) w,
)

-- A mask of `w` low bits is the remainder by `2 ^ w`.
pub and_low : (w a : ℕ) → bit_and a (2 ^ w - 1) ≡ a % 2 ^ w
and_low zero a = rw (and-zero a) (omega arith)
and_low (suc w) a = ground (
  arith,
  pow-suc 2 w,
  one-le-pow w 2,
  mod-pow-suc a w,
  bit_and_lowest a (2 ^ suc w - 1),
  and_low w (a / 2),
)

-- A mask that is shifted up reads the higher bits.
pub and_shifted : (l a m : ℕ) → bit_and a (m * 2 ^ l) ≡ bit_and (a / 2 ^ l) m * 2 ^ l
and_shifted zero a m = ground arith
and_shifted (suc l) a m = ground (
  arith,
  mul-pow-suc m l,
  mul-pow-suc (bit_and (a / 2 ^ suc l) m) l,
  div-pow-suc a l,
  bit_and_lowest a (m * 2 ^ suc l),
  and_shifted l (a / 2) m,
)

-- So the mask of the field of `w` bits at `l` reads that field.
pub and_field : (w l a : ℕ) → bit_and a ((2 ^ w - 1) * 2 ^ l) ≡ a / 2 ^ l % 2 ^ w * 2 ^ l
and_field w l a = rw (and_shifted l a (2 ^ w - 1), and_low w (a / 2 ^ l))

-- `|` with a number that fits below the field's zero bits is a sum.
pub or_low : (k q r : ℕ) → r < 2 ^ k → bit_or (q * 2 ^ k) r ≡ q * 2 ^ k + r
or_low zero q zero h = ground (arith, or-zero q)
or_low zero q (suc r) h = absurd (omega arith)
or_low (suc k) q r h = ground (
  arith,
  bit_or_lowest (q * 2 ^ suc k) r,
  mul-pow-suc q k,
  or_low k q (r / 2) (omega (arith, pow-suc 2 k)),
)

or_shifted : (l a b : ℕ) → bit_or a (b * 2 ^ l) ≡ bit_or (a / 2 ^ l) b * 2 ^ l + a % 2 ^ l
or_shifted zero a b = ground arith
or_shifted (suc l) a b = ground (
  arith,
  bit_or_lowest a (b * 2 ^ suc l),
  mul-pow-suc b l,
  mul-pow-suc (bit_or (a / 2 ^ suc l) b) l,
  mod-pow-suc a l,
  div-pow-suc a l,
  or_shifted l (a / 2) b,
)

-- `|` with a field at `l` is a sum where the other number has zeros there.
pub or_field :
    (w l a v : ℕ) → a / 2 ^ l % 2 ^ w ≡ 0 → v < 2 ^ w → bit_or a (v * 2 ^ l) ≡ a + v * 2 ^ l
or_field w l a v clear fits = omega (
  arith,
  or_shifted l a v,
  ap (λ (t : ℕ). t * 2 ^ l) (or_above (a / 2 ^ l) clear),
  mod-add-div a (2 ^ l),
)
  where
    or_above : (q : ℕ) → q % 2 ^ w ≡ 0 → bit_or q v ≡ q + v
    or_above q e =
        let whole : q ≡ q / 2 ^ w * 2 ^ w = omega (arith, mod-add-div q (2 ^ w)) in
        ap (λ t. bit_or t v) whole ∙ or_low w (q / 2 ^ w) v fits ∙ ap (λ t. t + v) (sym whole)

pub pow-add : (a j k : ℕ) → a ^ (j + k) ≡ a ^ j * a ^ k
pow-add a j zero = rw (add-zero j, pow-zero a) (omega arith)
pow-add a j (suc k) =
    rw (add-suc j k, pow-suc a (j + k), pow-suc a k, pow-add a j k) (mul_assoc (a ^ j) (a ^ k) a)

-- A mask is read in two parts.
pub and_split :
    (k x m r : ℕ)
    → r < 2 ^ k
    → bit_and x (m * 2 ^ k + r) ≡ bit_and (x / 2 ^ k) m * 2 ^ k + bit_and x r
and_split zero x m zero h = ground (arith, and-zero x)
and_split zero x m (suc r) h = absurd (omega arith)
and_split (suc k) x m r h = ground (
  arith,
  pow-suc 2 k,
  bit_and_lowest x (m * 2 ^ suc k + r),
  bit_and_lowest x r,
  mul-pow-suc m k,
  mul-pow-suc (bit_and (x / 2 ^ suc k) m) k,
  div-pow-suc x k,
  and_split k (x / 2) m (r / 2) (omega (arith, pow-suc 2 k)),
)
