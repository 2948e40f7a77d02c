-- ===== src/Core/Instr/Decode/All.antt =====
-- The decoder of uncompressed instructions, `Instruction::decode_normal` of
-- vp/src/core/common/instr.cpp: the `switch` on the opcode.
use dse_vp.Base.{ℕ, [], ◌∷◌}
use dse_vp.Core.Opcode.{Mapping}
use dse_vp.Core.Opcode.Parts.{
  op_lui, op_auipc, op_jal, op_jalr, op_beq, op_lb, op_sb, op_addi, op_addiw, op_add, op_addw,
  op_fence, op_ecall, op_amo, op_fmadd_s, op_fadd_s, op_flw, op_fsw, op_fmsub_s, op_fnmsub_s,
  op_fnmadd_s, op_cust0, op_cust1, op_cust2, op_cust3,
}
use dse_vp.Core.Instr.{opcode}
use dse_vp.Core.Instr.Decode.{
  Architecture, switch, match_instr, decode_branch, decode_load, decode_store, decode_op_imm,
  decode_op_imm_32, decode_op, decode_op_32, decode_fence, decode_system, decode_amo,
}
use dse_vp.Core.Instr.Decode.Float.{
  decode_fmadd, decode_fp, decode_fp_load, decode_fp_store, decode_fmsub, decode_fnmsub,
  decode_fnmadd,
}

unfoldable pub decode_normal : Architecture → ℕ → Mapping
decode_normal arch instr =
    switch (opcode instr)
      ((op_lui, match_instr Mapping.lui instr)
        ∷ (op_auipc, match_instr Mapping.auipc instr)
        ∷ (op_jal, match_instr Mapping.jal instr)
        ∷ (op_jalr, match_instr Mapping.jalr instr)
        ∷ (op_beq, decode_branch instr)
        ∷ (op_lb, decode_load instr)
        ∷ (op_sb, decode_store instr)
        ∷ (op_addi, decode_op_imm arch instr)
        ∷ (op_addiw, decode_op_imm_32 instr)
        ∷ (op_add, decode_op instr)
        ∷ (op_addw, decode_op_32 instr)
        ∷ (op_fence, decode_fence instr)
        ∷ (op_ecall, decode_system instr)
        ∷ (op_amo, decode_amo instr)
        ∷ (op_fmadd_s, decode_fmadd instr)
        ∷ (op_fadd_s, decode_fp instr)
        ∷ (op_flw, decode_fp_load instr)
        ∷ (op_fsw, decode_fp_store instr)
        ∷ (op_fmsub_s, decode_fmsub instr)
        ∷ (op_fnmsub_s, decode_fnmsub instr)
        ∷ (op_fnmadd_s, decode_fnmadd instr)
        ∷ (op_cust0, match_instr Mapping.custom0 instr)
        ∷ (op_cust1, match_instr Mapping.custom1 instr)
        ∷ (op_cust2, match_instr Mapping.custom2 instr)
        ∷ (op_cust3, match_instr Mapping.custom3 instr)
        ∷ [])
      Mapping.undef
