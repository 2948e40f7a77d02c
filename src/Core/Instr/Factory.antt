-- ===== src/Core/Instr/Factory.antt =====
-- Instruction words put together from their fields: `InstructionFactory` of
-- vp/src/core/common/instr.cpp. `a |% b` is `a | b`; a register number has the suffix `_no`. The
-- formats name the expressions that several instructions share.
pub mod Words
pub mod Immediates
use dse_vp.Base.{ℕ, ◌+◌, ◌*◌, ◌/◌, ◌^◌, bit_and, bit_or, ◌<<◌, ◌>>◌}

infixl 30 ◌|%◌
abbrev pub ◌|%◌ : ℕ → ℕ → ℕ
a |% b = bit_or a b

unfoldable pub make_add : ℕ → ℕ → ℕ → ℕ
make_add rd_no rs1_no rs2_no =
    (bit_and rd_no 31 << 7)
    |% (bit_and rs1_no 31 << 15)
    |% (bit_and rs2_no 31 << 20)
    |% 51
    |% (0 << 12)
    |% (0 << 25)

unfoldable pub make_and : ℕ → ℕ → ℕ → ℕ
make_and rd_no rs1_no rs2_no =
    (bit_and rd_no 31 << 7)
    |% (bit_and rs1_no 31 << 15)
    |% (bit_and rs2_no 31 << 20)
    |% 51
    |% (7 << 12)
    |% (0 << 25)

unfoldable pub make_or : ℕ → ℕ → ℕ → ℕ
make_or rd_no rs1_no rs2_no =
    (bit_and rd_no 31 << 7)
    |% (bit_and rs1_no 31 << 15)
    |% (bit_and rs2_no 31 << 20)
    |% 51
    |% (6 << 12)
    |% (0 << 25)

unfoldable pub make_xor : ℕ → ℕ → ℕ → ℕ
make_xor rd_no rs1_no rs2_no =
    (bit_and rd_no 31 << 7)
    |% (bit_and rs1_no 31 << 15)
    |% (bit_and rs2_no 31 << 20)
    |% 51
    |% (4 << 12)
    |% (0 << 25)

unfoldable pub make_sub : ℕ → ℕ → ℕ → ℕ
make_sub rd_no rs1_no rs2_no =
    (bit_and rd_no 31 << 7)
    |% (bit_and rs1_no 31 << 15)
    |% (bit_and rs2_no 31 << 20)
    |% 51
    |% (0 << 12)
    |% (32 << 25)

unfoldable pub make_lw : ℕ → ℕ → ℕ → ℕ
make_lw rd_no rs1_no imm =
    (bit_and imm 4095 << 20)
    |% (bit_and rd_no 31 << 7)
    |% (bit_and rs1_no 31 << 15)
    |% 3
    |% (2 << 12)

unfoldable pub make_ld : ℕ → ℕ → ℕ → ℕ
make_ld rd_no rs1_no imm =
    (bit_and imm 4095 << 20)
    |% (bit_and rd_no 31 << 7)
    |% (bit_and rs1_no 31 << 15)
    |% 3
    |% (3 << 12)

unfoldable pub make_flw : ℕ → ℕ → ℕ → ℕ
make_flw rd_no rs1_no imm =
    (bit_and imm 4095 << 20)
    |% (bit_and rd_no 31 << 7)
    |% (bit_and rs1_no 31 << 15)
    |% 7
    |% (2 << 12)

unfoldable pub make_fld : ℕ → ℕ → ℕ → ℕ
make_fld rd_no rs1_no imm =
    (bit_and imm 4095 << 20)
    |% (bit_and rd_no 31 << 7)
    |% (bit_and rs1_no 31 << 15)
    |% 7
    |% (3 << 12)

unfoldable pub make_sw : ℕ → ℕ → ℕ → ℕ
make_sw rs1_no rs2_no imm =
    ((bit_and imm 31 << 7) |% (bit_and imm (127 << 5) << 20))
    |% (bit_and rs1_no 31 << 15)
    |% (bit_and rs2_no 31 << 20)
    |% 35
    |% (2 << 12)

unfoldable pub make_sd : ℕ → ℕ → ℕ → ℕ
make_sd rs1_no rs2_no imm =
    ((bit_and imm 31 << 7) |% (bit_and imm (127 << 5) << 20))
    |% (bit_and rs1_no 31 << 15)
    |% (bit_and rs2_no 31 << 20)
    |% 35
    |% (3 << 12)

unfoldable pub make_fsw : ℕ → ℕ → ℕ → ℕ
make_fsw rs1_no rs2_no imm =
    ((bit_and imm 31 << 7) |% (bit_and imm (127 << 5) << 20))
    |% (bit_and rs1_no 31 << 15)
    |% (bit_and rs2_no 31 << 20)
    |% 39
    |% (2 << 12)

unfoldable pub make_fsd : ℕ → ℕ → ℕ → ℕ
make_fsd rs1_no rs2_no imm =
    ((bit_and imm 31 << 7) |% (bit_and imm (127 << 5) << 20))
    |% (bit_and rs1_no 31 << 15)
    |% (bit_and rs2_no 31 << 20)
    |% 39
    |% (3 << 12)

unfoldable pub make_lui : ℕ → ℕ → ℕ
make_lui rd_no imm = (bit_and imm (1048575 << 12)) |% (bit_and rd_no 31 << 7) |% 55

unfoldable pub make_addi : ℕ → ℕ → ℕ → ℕ
make_addi rd_no rs1_no imm =
    (bit_and imm 4095 << 20)
    |% (bit_and rd_no 31 << 7)
    |% (bit_and rs1_no 31 << 15)
    |% 19
    |% (0 << 12)

unfoldable pub make_andi : ℕ → ℕ → ℕ → ℕ
make_andi rd_no rs1_no imm =
    (bit_and imm 4095 << 20)
    |% (bit_and rd_no 31 << 7)
    |% (bit_and rs1_no 31 << 15)
    |% 19
    |% (7 << 12)

unfoldable pub make_srli : ℕ → ℕ → ℕ → ℕ
make_srli rd_no rs1_no amount =
    (bit_and rd_no 31 << 7)
    |% (bit_and rs1_no 31 << 15)
    |% (bit_and amount 63 << 20)
    |% 19
    |% (5 << 12)
    |% (0 << 25)

unfoldable pub make_srai : ℕ → ℕ → ℕ → ℕ
make_srai rd_no rs1_no amount =
    (bit_and rd_no 31 << 7)
    |% (bit_and rs1_no 31 << 15)
    |% (bit_and amount 63 << 20)
    |% 19
    |% (5 << 12)
    |% (32 << 25)

unfoldable pub make_slli : ℕ → ℕ → ℕ → ℕ
make_slli rd_no rs1_no amount =
    (bit_and rd_no 31 << 7)
    |% (bit_and rs1_no 31 << 15)
    |% (bit_and amount 63 << 20)
    |% 19
    |% (1 << 12)
    |% (0 << 25)

unfoldable pub make_jal : ℕ → ℕ → ℕ
make_jal rd_no imm =
    111
    |% (bit_and rd_no 31 << 7)
    |% ((bit_and imm (255 << 12))
        |% (bit_and imm (1 << 11) << 9)
        |% (bit_and imm 2046 << 20)
        |% (bit_and imm (1 << 20) << 11))

unfoldable pub make_jalr : ℕ → ℕ → ℕ → ℕ
make_jalr rd_no rs1_no imm =
    (bit_and imm 4095 << 20)
    |% (bit_and rd_no 31 << 7)
    |% (bit_and rs1_no 31 << 15)
    |% 103
    |% (0 << 12)

unfoldable pub make_beq : ℕ → ℕ → ℕ → ℕ
make_beq rs1_no rs2_no imm =
    ((((bit_and imm 30 << 7) |% (bit_and imm (1 << 11) >> 4))
      |% ((bit_and imm (63 << 5) << 20) |% (bit_and imm (1 << 12) << 19))))
    |% (bit_and rs1_no 31 << 15)
    |% (bit_and rs2_no 31 << 20)
    |% 99
    |% (0 << 12)

unfoldable pub make_bne : ℕ → ℕ → ℕ → ℕ
make_bne rs1_no rs2_no imm =
    ((((bit_and imm 30 << 7) |% (bit_and imm (1 << 11) >> 4))
      |% ((bit_and imm (63 << 5) << 20) |% (bit_and imm (1 << 12) << 19))))
    |% (bit_and rs1_no 31 << 15)
    |% (bit_and rs2_no 31 << 20)
    |% 99
    |% (1 << 12)

unfoldable pub make_ebreak : ℕ
make_ebreak = 1048691

unfoldable pub make_addiw : ℕ → ℕ → ℕ → ℕ
make_addiw rd_no rs1_no imm =
    (bit_and imm 4095 << 20) |% (bit_and rd_no 31 << 7) |% (bit_and rs1_no 31 << 15) |% 27

unfoldable pub make_addw : ℕ → ℕ → ℕ → ℕ
make_addw rd_no rs1_no rs2_no =
    (bit_and rd_no 31 << 7) |% (bit_and rs1_no 31 << 15) |% (bit_and rs2_no 31 << 20) |% 59

unfoldable pub make_subw : ℕ → ℕ → ℕ → ℕ
make_subw rd_no rs1_no rs2_no =
    (bit_and rd_no 31 << 7)
    |% (bit_and rs1_no 31 << 15)
    |% (bit_and rs2_no 31 << 20)
    |% 59
    |% 1073741824
