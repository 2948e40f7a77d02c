-- ===== src/Core/Instr/Expand/MaskFields.antt =====
-- The masks of the decoder as fields of the word.
use dse_vp.Base.{ℕ, ◌+◌, ◌*◌, ◌/◌, ◌%◌, ◌^◌, ◌≡◌, arith, bit_and, and_low, and_split}

pub mask_opcode : (x : ℕ) → bit_and x 127 ≡ x % 128
mask_opcode x = and_low 7 x

pub mask_funct3 : (x : ℕ) → bit_and x 28799 ≡ x % 128 + x / 4096 % 8 * 4096
mask_funct3 x = omega (arith, and_split 12 x 7 127 (omega arith), and_low 3 (x / 4096), and_low 7 x)

pub mask_funct7 :
    (x : ℕ) → bit_and x 4261441663 ≡ x % 128 + x / 4096 % 8 * 4096 + x / 2 ^ 25 % 128 * 2 ^ 25
mask_funct7 x =
    omega (arith, and_split 25 x 127 28799 (omega arith), and_low 7 (x / 2 ^ 25), mask_funct3 x)

pub mask_funct6 :
    (x : ℕ) → bit_and x 4227887231 ≡ x % 128 + x / 4096 % 8 * 4096 + x / 2 ^ 26 % 64 * 2 ^ 26
mask_funct6 x =
    omega (arith, and_split 26 x 63 28799 (omega arith), and_low 6 (x / 2 ^ 26), mask_funct3 x)
