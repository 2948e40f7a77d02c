-- ===== src/Base/Word.antt =====
-- 32-bit words as numbers below 2 ^ 32: casts, shifts, complement and the signed reading.
use Prim.Native.Nat.{ℕ, ◌+◌, ◌-◌, ◌*◌, ◌/◌, ◌%◌, ◌^◌}
use mathlib.Core.Bool.{Bool}
use dse_vp.Base.Tests.{ltb, if◌then◌else◌}

-- A value that is stored in a `uint32_t` or an `int32_t`; both are kept as the bit pattern.
abbrev pub u32 : ℕ → ℕ
u32 n = n % 2 ^ 32

-- `x << k`, before it is stored, and `x >> k` of an unsigned `x`.
infixl 68 ◌<<◌ ◌>>◌
abbrev pub ◌<<◌ : ℕ → ℕ → ℕ
x << k = x * 2 ^ k

abbrev pub ◌>>◌ : ℕ → ℕ → ℕ
x >> k = x / 2 ^ k

-- `~x` on 32 bits.
abbrev pub not32 : ℕ → ℕ
not32 x = 2 ^ 32 - 1 - x

abbrev pub is_negative : ℕ → Bool
is_negative x = ltb (2 ^ 31 - 1) x

-- `x >> k` of an `int32_t`, which copies the sign down.
abbrev pub sar : ℕ → ℕ → ℕ
sar x k = if is_negative x then not32 (not32 x >> k) else x >> k

-- `x + y` and `x - y` of 32-bit operands.
abbrev pub add32 : ℕ → ℕ → ℕ
add32 x y = u32 (x + y)

abbrev pub sub32 : ℕ → ℕ → ℕ
sub32 x y = u32 (x + 2 ^ 32 - y)
