-- ===== src/Core/Instr/Fields/Parity.antt =====
-- The offsets of jumps and branches are even.
use dse_vp.Base.{ℕ, ◌%◌, ◌≡◌, arith, bit_or, and_field, bit_or_lowest, sar, u32, ◌<<◌}
use dse_vp.Core.Instr.{j_imm, b_imm, bit_range, bit_single}

or_even : (a b : ℕ) → a % 2 ≡ 0 → b % 2 ≡ 0 → bit_or a b % 2 ≡ 0
or_even a b h k = omega (arith, bit_or_lowest a b)

pub j_imm_even : (x : ℕ) → j_imm x % 2 ≡ 0
unfolding j_imm
j_imm_even x =
    or_even _ (sar (bit_range x 30 21) 20)
      (or_even _ (sar (bit_single x 20) 9)
        (or_even (sar (bit_single x 31) 11) (bit_range x 19 12) (ground (arith, and_field 1 31 x))
          (ground (arith, and_field 8 12 x)))
        (ground (arith, and_field 1 20 x)))
      (ground (arith, and_field 10 21 x))

pub b_imm_even : (x : ℕ) → b_imm x % 2 ≡ 0
unfolding b_imm
b_imm_even x =
    or_even _ (sar (bit_range x 11 8) 7)
      (or_even _ (sar (bit_range x 30 25) 20)
        (or_even (sar (bit_single x 31) 19) (u32 (bit_single x 7 << 4))
          (ground (arith, and_field 1 31 x)) (ground (arith, and_field 1 7 x)))
        (ground (arith, and_field 6 25 x)))
      (ground (arith, and_field 4 8 x))
