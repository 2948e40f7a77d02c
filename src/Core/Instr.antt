-- ===== src/Core/Instr.antt =====
-- The fields of an instruction word: the macros and the class `Instruction` of
-- vp/src/core/common/instr.h. The private member is an `int32_t`, so that a shift right copies the
-- sign down where the source does not cast to `uint32_t` first.
pub mod Fields
pub mod Factory
pub mod Decode
pub mod Compressed
pub mod Expand
use dse_vp.Base.{
  ℕ, ◌+◌, ◌-◌, ◌*◌, ◌^◌, Bool, not, ◌||◌, bit_and, bit_or, ltb, ◌==◌, u32, ◌<<◌, ◌>>◌, sar,
}

abbrev pub bit_range : ℕ → ℕ → ℕ → ℕ
bit_range instr upper lower = bit_and instr ((2 ^ (upper - lower + 1) - 1) * 2 ^ lower)

abbrev pub bit_slice : ℕ → ℕ → ℕ → ℕ
bit_slice instr upper lower = bit_range instr upper lower >> lower

abbrev pub bit_single : ℕ → ℕ → ℕ
bit_single instr pos = bit_and instr (2 ^ pos)

abbrev pub bit_single_p1 : ℕ → ℕ → ℕ
bit_single_p1 instr pos = bit_single instr pos >> pos

abbrev pub bit_single_pn : ℕ → ℕ → ℕ → ℕ
bit_single_pn instr pos new_pos = (bit_single instr pos >> pos) << new_pos

abbrev pub extract_sign_bit : ℕ → ℕ → ℕ → ℕ
extract_sign_bit instr pos new_pos = sar (bit_single_p1 instr pos << 31) (31 - new_pos)

unfoldable pub quadrant : ℕ → ℕ
quadrant instr = bit_and instr 3

unfoldable pub is_compressed : ℕ → Bool
is_compressed instr = ltb (quadrant instr) 3

unfoldable pub c_format : ℕ → ℕ
c_format instr = bit_and instr 65535

unfoldable pub c_opcode : ℕ → ℕ
c_opcode instr = bit_slice instr 15 13

unfoldable pub c_b12 : ℕ → ℕ
c_b12 instr = bit_single_p1 instr 12

unfoldable pub rd : ℕ → ℕ
rd instr = sar (bit_range instr 11 7) 7

unfoldable pub c_rd : ℕ → ℕ
c_rd instr = rd instr

unfoldable pub c_rd_small : ℕ → ℕ
c_rd_small instr = bit_or (bit_slice instr 9 7) 8

unfoldable pub c_rs2_small : ℕ → ℕ
c_rs2_small instr = bit_or (bit_slice instr 4 2) 8

unfoldable pub c_rs2 : ℕ → ℕ
c_rs2 instr = bit_slice instr 6 2

unfoldable pub c_imm : ℕ → ℕ
c_imm instr = bit_or (bit_slice instr 6 2) (extract_sign_bit instr 12 5)

unfoldable pub c_uimm : ℕ → ℕ
c_uimm instr = bit_or (bit_slice instr 6 2) (bit_single_p1 instr 12 << 5)

unfoldable pub c_f2_high : ℕ → ℕ
c_f2_high instr = bit_slice instr 11 10

unfoldable pub c_f2_low : ℕ → ℕ
c_f2_low instr = bit_slice instr 6 5

unfoldable pub csr : ℕ → ℕ
csr instr = bit_range instr 31 20 >> 20

unfoldable pub zimm : ℕ → ℕ
zimm instr = sar (bit_range instr 19 15) 15

unfoldable pub shamt : ℕ → ℕ
shamt instr = sar (bit_range instr 25 20) 20

unfoldable pub shamt_w : ℕ → ℕ
shamt_w instr = sar (bit_range instr 24 20) 20

unfoldable pub funct2 : ℕ → ℕ
funct2 instr = sar (bit_range instr 26 25) 25

unfoldable pub funct3 : ℕ → ℕ
funct3 instr = sar (bit_range instr 14 12) 12

unfoldable pub funct12 : ℕ → ℕ
funct12 instr = bit_range instr 31 20 >> 20

unfoldable pub funct7 : ℕ → ℕ
funct7 instr = bit_range instr 31 25 >> 25

unfoldable pub funct6 : ℕ → ℕ
funct6 instr = bit_range instr 31 26 >> 26

unfoldable pub funct5 : ℕ → ℕ
funct5 instr = bit_range instr 31 27 >> 27

unfoldable pub opcode : ℕ → ℕ
opcode instr = bit_range instr 6 0

unfoldable pub aq : ℕ → Bool
aq instr = not (bit_single instr 26 == 0)

unfoldable pub rl : ℕ → Bool
rl instr = not (bit_single instr 25 == 0)

unfoldable pub j_imm : ℕ → ℕ
j_imm instr =
    bit_or
      (bit_or (bit_or (sar (bit_single instr 31) 11) (bit_range instr 19 12))
        (sar (bit_single instr 20) 9))
      (sar (bit_range instr 30 21) 20)

unfoldable pub i_imm : ℕ → ℕ
i_imm instr = sar (bit_range instr 31 20) 20

unfoldable pub s_imm : ℕ → ℕ
s_imm instr = bit_or (sar (bit_range instr 31 25) 20) (sar (bit_range instr 11 7) 7)

unfoldable pub b_imm : ℕ → ℕ
b_imm instr =
    bit_or
      (bit_or (bit_or (sar (bit_single instr 31) 19) (u32 (bit_single instr 7 << 4)))
        (sar (bit_range instr 30 25) 20))
      (sar (bit_range instr 11 8) 7)

unfoldable pub u_imm : ℕ → ℕ
u_imm instr = bit_range instr 31 12

unfoldable pub rs1 : ℕ → ℕ
rs1 instr = sar (bit_range instr 19 15) 15

unfoldable pub rs2 : ℕ → ℕ
rs2 instr = sar (bit_range instr 24 20) 20

unfoldable pub rs3 : ℕ → ℕ
rs3 instr = bit_range instr 31 27 >> 27

unfoldable pub is_custom : ℕ → Bool
is_custom instr =
    opcode instr == 11 || opcode instr == 43 || opcode instr == 91 || opcode instr == 123
