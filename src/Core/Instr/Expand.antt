-- ===== src/Core/Instr/Expand.antt =====
-- Compressed instructions written out as uncompressed ones: `expand_compressed` and
-- `Instruction::decode_and_expand_compressed` of vp/src/core/common/instr.cpp. The result holds the
-- instruction word that the source stores back.
pub mod MaskFields
pub mod Decodes
pub mod Shifts
pub mod Agrees
pub mod Jumps
use dse_vp.Base.{ℕ, Option, none, some, ltb, ◌==◌, ◌&&◌, if◌then◌else◌}
use dse_vp.Core.Opcode.{Mapping}
use dse_vp.Core.Instr.{c_rd, c_rd_small, c_rs2, c_rs2_small, c_imm, c_uimm}
use dse_vp.Core.Instr.Decode.{Architecture, is_rv32}
use dse_vp.Core.Instr.Factory.{
  make_add, make_addi, make_addw, make_and, make_andi, make_beq, make_bne, make_ebreak, make_fld,
  make_flw, make_fsd, make_fsw, make_jal, make_jalr, make_ld, make_lui, make_lw, make_or, make_sd,
  make_slli, make_srai, make_srli, make_sub, make_subw, make_sw, make_xor,
}
use dse_vp.Core.Instr.Compressed.{
  Opcode, decode_compressed, c_addi16sp_nzimm, c_addi4spn_nzuimm, c_branch_imm, c_j_imm, c_jal_imm,
  c_ld_uimm, c_ldsp_uimm, c_lui_nzimm, c_lw_uimm, c_lwsp_uimm, c_sd_uimm, c_sdsp_uimm, c_sw_uimm,
  c_swsp_uimm,
}

unfoldable pub expand_compressed : Opcode → Architecture → ℕ → Mapping × ℕ
expand_compressed Opcode.c_illegal arch instr = (Mapping.undef, instr)
expand_compressed Opcode.c_reserved arch instr = (Mapping.undef, instr)
expand_compressed Opcode.c_addi4spn arch instr =
    let n = c_addi4spn_nzuimm instr in
    if n == 0 then (Mapping.undef, instr) else (Mapping.addi, make_addi (c_rs2_small instr) 2 n)
expand_compressed Opcode.c_fld arch instr =
    (Mapping.fld, make_fld (c_rs2_small instr) (c_rd_small instr) (c_ld_uimm instr))
expand_compressed Opcode.c_lq arch instr = (Mapping.undef, instr)
expand_compressed Opcode.c_lw arch instr =
    (Mapping.lw, make_lw (c_rs2_small instr) (c_rd_small instr) (c_lw_uimm instr))
expand_compressed Opcode.c_flw arch instr =
    (Mapping.flw, make_flw (c_rs2_small instr) (c_rd_small instr) (c_lw_uimm instr))
expand_compressed Opcode.c_ld arch instr =
    (Mapping.ld, make_ld (c_rs2_small instr) (c_rd_small instr) (c_ld_uimm instr))
expand_compressed Opcode.c_fsd arch instr =
    (Mapping.fsd, make_fsd (c_rd_small instr) (c_rs2_small instr) (c_sd_uimm instr))
expand_compressed Opcode.c_sq arch instr = (Mapping.undef, instr)
expand_compressed Opcode.c_sw arch instr =
    (Mapping.sw, make_sw (c_rd_small instr) (c_rs2_small instr) (c_sw_uimm instr))
expand_compressed Opcode.c_fsw arch instr =
    (Mapping.fsw, make_fsw (c_rd_small instr) (c_rs2_small instr) (c_sw_uimm instr))
expand_compressed Opcode.c_sd arch instr =
    (Mapping.sd, make_sd (c_rd_small instr) (c_rs2_small instr) (c_sd_uimm instr))
expand_compressed Opcode.c_nop arch instr = (Mapping.add, make_add 0 0 0)
expand_compressed Opcode.c_addi arch instr =
    (Mapping.addi, make_addi (c_rd instr) (c_rd instr) (c_imm instr))
expand_compressed Opcode.c_jal arch instr = (Mapping.jal, make_jal 1 (c_jal_imm instr))
expand_compressed Opcode.c_addiw arch instr =
    if c_rd instr == 0
    then (Mapping.undef, instr)
    else (Mapping.addiw, make_addi (c_rd instr) (c_rd instr) (c_imm instr))
expand_compressed Opcode.c_li arch instr = (Mapping.addi, make_addi (c_rd instr) 0 (c_imm instr))
expand_compressed Opcode.c_addi16sp arch instr =
    let n = c_addi16sp_nzimm instr in
    if n == 0 then (Mapping.undef, instr) else (Mapping.addi, make_addi 2 2 n)
expand_compressed Opcode.c_lui arch instr =
    let n = c_lui_nzimm instr in
    if n == 0 then (Mapping.undef, instr) else (Mapping.lui, make_lui (c_rd instr) n)
expand_compressed Opcode.c_srli arch instr =
    let n = c_uimm instr in
    if is_rv32 arch && ltb 31 n
    then (Mapping.undef, instr)
    else (Mapping.srli, make_srli (c_rd_small instr) (c_rd_small instr) n)
expand_compressed Opcode.c_srai arch instr =
    let n = c_uimm instr in
    if is_rv32 arch && ltb 31 n
    then (Mapping.undef, instr)
    else (Mapping.srai, make_srai (c_rd_small instr) (c_rd_small instr) n)
expand_compressed Opcode.c_andi arch instr =
    (Mapping.andi, make_andi (c_rd_small instr) (c_rd_small instr) (c_imm instr))
expand_compressed Opcode.c_sub arch instr =
    (Mapping.sub, make_sub (c_rd_small instr) (c_rd_small instr) (c_rs2_small instr))
expand_compressed Opcode.c_xor arch instr =
    (Mapping.xor, make_xor (c_rd_small instr) (c_rd_small instr) (c_rs2_small instr))
expand_compressed Opcode.c_or arch instr =
    (Mapping.or, make_or (c_rd_small instr) (c_rd_small instr) (c_rs2_small instr))
expand_compressed Opcode.c_and arch instr =
    (Mapping.and, make_and (c_rd_small instr) (c_rd_small instr) (c_rs2_small instr))
expand_compressed Opcode.c_subw arch instr =
    (Mapping.subw, make_subw (c_rd_small instr) (c_rd_small instr) (c_rs2_small instr))
expand_compressed Opcode.c_addw arch instr =
    (Mapping.addw, make_addw (c_rd_small instr) (c_rd_small instr) (c_rs2_small instr))
expand_compressed Opcode.c_j arch instr = (Mapping.jal, make_jal 0 (c_j_imm instr))
expand_compressed Opcode.c_beqz arch instr =
    (Mapping.beq, make_beq (c_rd_small instr) 0 (c_branch_imm instr))
expand_compressed Opcode.c_bnez arch instr =
    (Mapping.bne, make_bne (c_rd_small instr) 0 (c_branch_imm instr))
expand_compressed Opcode.c_slli arch instr =
    let n = c_uimm instr in
    if is_rv32 arch && ltb 31 n
    then (Mapping.undef, instr)
    else (Mapping.slli, make_slli (c_rd instr) (c_rd instr) n)
expand_compressed Opcode.c_fldsp arch instr =
    (Mapping.fld, make_fld (c_rd instr) 2 (c_ldsp_uimm instr))
expand_compressed Opcode.c_lqsp arch instr = (Mapping.undef, instr)
expand_compressed Opcode.c_lwsp arch instr =
    if c_rd instr == 0
    then (Mapping.undef, instr)
    else (Mapping.lw, make_lw (c_rd instr) 2 (c_lwsp_uimm instr))
expand_compressed Opcode.c_flwsp arch instr =
    (Mapping.flw, make_flw (c_rd instr) 2 (c_lwsp_uimm instr))
expand_compressed Opcode.c_ldsp arch instr =
    if c_rd instr == 0
    then (Mapping.undef, instr)
    else (Mapping.ld, make_ld (c_rd instr) 2 (c_ldsp_uimm instr))
expand_compressed Opcode.c_jr arch instr =
    if c_rd instr == 0 then (Mapping.undef, instr) else (Mapping.jalr, make_jalr 0 (c_rd instr) 0)
expand_compressed Opcode.c_mv arch instr = (Mapping.add, make_add (c_rd instr) 0 (c_rs2 instr))
expand_compressed Opcode.c_ebreak arch instr = (Mapping.ebreak, make_ebreak)
expand_compressed Opcode.c_jalr arch instr = (Mapping.jalr, make_jalr 1 (c_rd instr) 0)
expand_compressed Opcode.c_add arch instr =
    (Mapping.add, make_add (c_rd instr) (c_rd instr) (c_rs2 instr))
expand_compressed Opcode.c_fsdsp arch instr =
    (Mapping.fsd, make_fsd 2 (c_rs2 instr) (c_sdsp_uimm instr))
expand_compressed Opcode.c_sqsp arch instr = (Mapping.undef, instr)
expand_compressed Opcode.c_swsp arch instr =
    (Mapping.sw, make_sw 2 (c_rs2 instr) (c_swsp_uimm instr))
expand_compressed Opcode.c_fswsp arch instr =
    (Mapping.fsw, make_fsw 2 (c_rs2 instr) (c_swsp_uimm instr))
expand_compressed Opcode.c_sdsp arch instr =
    (Mapping.sd, make_sd 2 (c_rs2 instr) (c_sdsp_uimm instr))

unfoldable pub decode_and_expand_compressed : Architecture → ℕ → Option (Mapping × ℕ)
decode_and_expand_compressed arch instr = elim (decode_compressed arch instr) [
  | none ↦ none
  | some c_op ↦ some (expand_compressed c_op arch instr)
]
