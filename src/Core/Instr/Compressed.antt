-- ===== src/Core/Instr/Compressed.antt =====
-- Compressed instructions: `Compressed::Opcode`, the immediates and `decode_compressed` of
-- vp/src/core/common/instr.cpp.
use dse_vp.Base.{ℕ, Option, none, some, [], ◌∷◌, ◌==◌, if◌then◌else◌, ◌<<◌}
use dse_vp.Core.Instr.{
  bit_slice, bit_single_p1, bit_single_pn, extract_sign_bit, quadrant, c_format, c_opcode, c_b12,
  c_rd, c_rs2, c_f2_high, c_f2_low,
}
use dse_vp.Core.Instr.Factory.{◌|%◌}
use dse_vp.Core.Instr.Decode.{Architecture, is_rv32, switch}

pub data Opcode : Type 0 where
  c_illegal : Opcode
  c_reserved : Opcode
  c_addi4spn : Opcode
  c_fld : Opcode
  c_lq : Opcode
  c_lw : Opcode
  c_flw : Opcode
  c_ld : Opcode
  c_fsd : Opcode
  c_sq : Opcode
  c_sw : Opcode
  c_fsw : Opcode
  c_sd : Opcode
  c_nop : Opcode
  c_addi : Opcode
  c_jal : Opcode
  c_addiw : Opcode
  c_li : Opcode
  c_addi16sp : Opcode
  c_lui : Opcode
  c_srli : Opcode
  c_srai : Opcode
  c_andi : Opcode
  c_sub : Opcode
  c_xor : Opcode
  c_or : Opcode
  c_and : Opcode
  c_subw : Opcode
  c_addw : Opcode
  c_j : Opcode
  c_beqz : Opcode
  c_bnez : Opcode
  c_slli : Opcode
  c_fldsp : Opcode
  c_lqsp : Opcode
  c_lwsp : Opcode
  c_flwsp : Opcode
  c_ldsp : Opcode
  c_jr : Opcode
  c_mv : Opcode
  c_ebreak : Opcode
  c_jalr : Opcode
  c_add : Opcode
  c_fsdsp : Opcode
  c_sqsp : Opcode
  c_swsp : Opcode
  c_fswsp : Opcode
  c_sdsp : Opcode

unfoldable pub c_addi4spn_nzuimm : ℕ → ℕ
c_addi4spn_nzuimm n =
    (bit_slice n 12 11 << 4)
    |% (bit_slice n 10 7 << 6)
    |% (bit_single_p1 n 6 << 2)
    |% (bit_single_p1 n 5 << 3)

unfoldable pub c_lw_uimm : ℕ → ℕ
c_lw_uimm n = (bit_slice n 12 10 << 3) |% (bit_single_p1 n 6 << 2) |% (bit_single_p1 n 5 << 6)

unfoldable pub c_ld_uimm : ℕ → ℕ
c_ld_uimm n = (bit_slice n 12 10 << 3) |% (bit_slice n 6 5 << 6)

unfoldable pub c_sw_uimm : ℕ → ℕ
c_sw_uimm n = c_lw_uimm n

unfoldable pub c_sd_uimm : ℕ → ℕ
c_sd_uimm n = c_ld_uimm n

unfoldable pub c_jal_imm : ℕ → ℕ
c_jal_imm n =
    extract_sign_bit n 12 11
    |% bit_single_pn n 11 4
    |% (bit_slice n 10 9 << 8)
    |% bit_single_pn n 8 10
    |% bit_single_pn n 7 6
    |% bit_single_pn n 6 7
    |% (bit_slice n 5 3 << 1)
    |% bit_single_pn n 2 5

unfoldable pub c_addi16sp_nzimm : ℕ → ℕ
c_addi16sp_nzimm n =
    extract_sign_bit n 12 9
    |% bit_single_pn n 6 4
    |% bit_single_pn n 5 6
    |% (bit_slice n 4 3 << 7)
    |% bit_single_pn n 2 5

unfoldable pub c_lui_nzimm : ℕ → ℕ
c_lui_nzimm n = extract_sign_bit n 12 17 |% (bit_slice n 6 2 << 12)

unfoldable pub c_j_imm : ℕ → ℕ
c_j_imm n = c_jal_imm n

unfoldable pub c_branch_imm : ℕ → ℕ
c_branch_imm n =
    extract_sign_bit n 12 8
    |% (bit_slice n 11 10 << 3)
    |% (bit_slice n 6 5 << 6)
    |% (bit_slice n 4 3 << 1)
    |% bit_single_pn n 2 5

unfoldable pub c_lwsp_uimm : ℕ → ℕ
c_lwsp_uimm n = bit_single_pn n 12 5 |% (bit_slice n 6 4 << 2) |% (bit_slice n 3 2 << 6)

unfoldable pub c_swsp_uimm : ℕ → ℕ
c_swsp_uimm n = (bit_slice n 12 9 << 2) |% (bit_slice n 8 7 << 6)

unfoldable pub c_ldsp_uimm : ℕ → ℕ
c_ldsp_uimm n = bit_single_pn n 12 5 |% (bit_slice n 6 5 << 3) |% (bit_slice n 4 2 << 6)

unfoldable pub c_sdsp_uimm : ℕ → ℕ
c_sdsp_uimm n = (bit_slice n 12 10 << 3) |% (bit_slice n 9 7 << 6)

unfoldable pub decode_quadrant_0 : Architecture → ℕ → Opcode
decode_quadrant_0 arch instr =
    switch (c_opcode instr)
      ((0, if c_format instr == 0 then Opcode.c_illegal else Opcode.c_addi4spn)
        ∷ (1, Opcode.c_fld)
        ∷ (2, Opcode.c_lw)
        ∷ (3, if is_rv32 arch then Opcode.c_flw else Opcode.c_ld)
        ∷ (4, Opcode.c_reserved)
        ∷ (5, Opcode.c_fsd)
        ∷ (6, Opcode.c_sw)
        ∷ (7, if is_rv32 arch then Opcode.c_fsw else Opcode.c_sd)
        ∷ [])
      Opcode.c_illegal

-- The group of the register operations in quadrant 1.
unfoldable pub decode_misc_alu : ℕ → Opcode
decode_misc_alu instr =
    switch (c_f2_high instr)
      ((0, Opcode.c_srli)
        ∷ (1, Opcode.c_srai)
        ∷ (2, Opcode.c_andi)
        ∷ (
          3,
          if c_b12 instr == 0
              then (switch (c_f2_low instr)
                  ((0, Opcode.c_sub)
                    ∷ (1, Opcode.c_xor)
                    ∷ (2, Opcode.c_or)
                    ∷ (3, Opcode.c_and)
                    ∷ [])
                  Opcode.c_illegal)
              else (switch (c_f2_low instr) ((0, Opcode.c_subw) ∷ (1, Opcode.c_addw) ∷ [])
                  Opcode.c_reserved),
        )
        ∷ [])
      Opcode.c_illegal

unfoldable pub decode_quadrant_1 : Architecture → ℕ → Opcode
decode_quadrant_1 arch instr =
    switch (c_opcode instr)
      ((0, if c_format instr == 1 then Opcode.c_nop else Opcode.c_addi)
        ∷ (1, if is_rv32 arch then Opcode.c_jal else Opcode.c_addiw)
        ∷ (2, Opcode.c_li)
        ∷ (3, if c_rd instr == 2 then Opcode.c_addi16sp else Opcode.c_lui)
        ∷ (4, decode_misc_alu instr)
        ∷ (5, Opcode.c_j)
        ∷ (6, Opcode.c_beqz)
        ∷ (7, Opcode.c_bnez)
        ∷ [])
      Opcode.c_illegal

unfoldable pub decode_quadrant_2 : Architecture → ℕ → Opcode
decode_quadrant_2 arch instr =
    switch (c_opcode instr)
      ((0, Opcode.c_slli)
        ∷ (1, Opcode.c_fldsp)
        ∷ (2, Opcode.c_lwsp)
        ∷ (3, if is_rv32 arch then Opcode.c_flwsp else Opcode.c_ldsp)
        ∷ (
          4,
          if c_b12 instr == 0
              then if c_rs2 instr == 0 then Opcode.c_jr else Opcode.c_mv
              else if c_rd instr == 0
              then Opcode.c_ebreak
              else if c_rs2 instr == 0
              then Opcode.c_jalr
              else Opcode.c_add,
        )
        ∷ (5, Opcode.c_fsdsp)
        ∷ (6, Opcode.c_swsp)
        ∷ (7, if is_rv32 arch then Opcode.c_fswsp else Opcode.c_sdsp)
        ∷ [])
      Opcode.c_illegal

-- `none` is the exception "compressed instruction expected, but uncompressed found".
unfoldable pub decode_compressed : Architecture → ℕ → Option Opcode
decode_compressed arch instr =
    switch (quadrant instr)
      ((0, some (decode_quadrant_0 arch instr))
        ∷ (1, some (decode_quadrant_1 arch instr))
        ∷ (2, some (decode_quadrant_2 arch instr))
        ∷ [])
      none
