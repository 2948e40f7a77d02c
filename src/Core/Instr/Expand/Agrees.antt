-- ===== src/Core/Instr/Expand/Agrees.antt =====
-- The word that a compressed instruction is written out as, and the instruction that is returned
-- beside it.
use dse_vp.Base.{
  ℕ, ◌+◌, ◌*◌, ◌/◌, ◌%◌, ◌^◌, ◌<◌, ◌≡◌, ◌≢◌, ◌⊎◌, inl, inr, refl, Bool, true, false, ◌==◌, ◌&&◌,
  ltb, if◌then◌else◌, arith, bit_or, and_field, or_field,
}
use dse_vp.Core.Opcode.{Mapping}
use dse_vp.Core.Instr.{c_uimm, c_rd, bit_slice, bit_single_p1}
use dse_vp.Core.Instr.Decode.{Architecture, is_rv32}
use dse_vp.Core.Instr.Decode.All.{decode_normal}
use dse_vp.Core.Instr.Compressed.{Opcode, c_addi4spn_nzuimm, c_addi16sp_nzimm, c_lui_nzimm}
use dse_vp.Core.Instr.Expand.{expand_compressed}
use dse_vp.Core.Instr.Expand.Decodes.{
  decode-make_add, decode-make_addi, decode-make_and, decode-make_andi, decode-make_beq,
  decode-make_bne, decode-make_ebreak, decode-make_fld, decode-make_flw, decode-make_fsd,
  decode-make_fsw, decode-make_jal, decode-make_jalr, decode-make_ld, decode-make_lui,
  decode-make_lw, decode-make_or, decode-make_sd, decode-make_sub, decode-make_sw, decode-make_xor,
}
use dse_vp.Core.Instr.Expand.Shifts.{
  decode-make_addw, decode-make_slli, decode-make_srai, decode-make_srli, decode-make_subw,
}

c_uimm-lt : (instr : ℕ) → c_uimm instr < 64
unfolding c_uimm
c_uimm-lt instr =
    let a = bit_slice instr 6 2 in
    let ae : a ≡ instr / 4 % 32 = omega (arith, and_field 5 2 instr) in
    let be : bit_single_p1 instr 12 ≡ instr / 4096 % 2 = omega (arith, and_field 1 12 instr) in
    let e : bit_or a (bit_single_p1 instr 12 * 2 ^ 5) ≡ a + bit_single_p1 instr 12 * 2 ^ 5 =
      or_field 1 5 a (bit_single_p1 instr 12) (omega arith) (omega arith) in
    omega arith

abbrev pub Agrees : Architecture → Mapping × ℕ → Type 0
Agrees arch r = (r.0 ≡ Mapping.undef) ⊎ (decode_normal arch r.1 ≡ r.0)

Agrees-if :
    (arch : Architecture) (b : Bool) (instr : ℕ) (r : Mapping × ℕ)
    → (b ≡ false → Agrees arch r)
    → Agrees arch (if b then (Mapping.undef, instr) else r)
Agrees-if arch true instr r h = inl refl
Agrees-if arch false instr r h = h refl

-- On every architecture, every compressed instruction but C.ADDIW is rejected or written out as a
-- word that the decoder of uncompressed instructions maps to the very instruction that is returned.
pub expand-decodes :
    (c_op : Opcode) (arch : Architecture) (instr : ℕ)
    → c_op ≢ Opcode.c_addiw
    → Agrees arch (expand_compressed c_op arch instr)
unfolding expand_compressed
expand-decodes Opcode.c_illegal arch instr h = inl refl
expand-decodes Opcode.c_reserved arch instr h = inl refl
expand-decodes Opcode.c_addi4spn arch instr h =
    Agrees-if arch (c_addi4spn_nzuimm instr == 0) instr _ (λ _. inr (decode-make_addi arch _ _ _))
expand-decodes Opcode.c_fld arch instr h = inr (decode-make_fld arch _ _ _)
expand-decodes Opcode.c_lq arch instr h = inl refl
expand-decodes Opcode.c_lw arch instr h = inr (decode-make_lw arch _ _ _)
expand-decodes Opcode.c_flw arch instr h = inr (decode-make_flw arch _ _ _)
expand-decodes Opcode.c_ld arch instr h = inr (decode-make_ld arch _ _ _)
expand-decodes Opcode.c_fsd arch instr h = inr (decode-make_fsd arch _ _ _)
expand-decodes Opcode.c_sq arch instr h = inl refl
expand-decodes Opcode.c_sw arch instr h = inr (decode-make_sw arch _ _ _)
expand-decodes Opcode.c_fsw arch instr h = inr (decode-make_fsw arch _ _ _)
expand-decodes Opcode.c_sd arch instr h = inr (decode-make_sd arch _ _ _)
expand-decodes Opcode.c_nop arch instr h = inr (decode-make_add arch _ _ _)
expand-decodes Opcode.c_addi arch instr h = inr (decode-make_addi arch _ _ _)
expand-decodes Opcode.c_jal arch instr h = inr (decode-make_jal arch _ _)
expand-decodes Opcode.c_addiw arch instr h = absurd (h refl)
expand-decodes Opcode.c_li arch instr h = inr (decode-make_addi arch _ _ _)
expand-decodes Opcode.c_addi16sp arch instr h =
    Agrees-if arch (c_addi16sp_nzimm instr == 0) instr _ (λ _. inr (decode-make_addi arch _ _ _))
expand-decodes Opcode.c_lui arch instr h =
    Agrees-if arch (c_lui_nzimm instr == 0) instr _ (λ _. inr (decode-make_lui arch _ _))
expand-decodes Opcode.c_srli arch instr h =
    Agrees-if arch (is_rv32 arch && ltb 31 (c_uimm instr)) instr _
      (λ fits. inr (decode-make_srli arch _ _ (c_uimm instr) fits (c_uimm-lt instr)))
expand-decodes Opcode.c_srai arch instr h =
    Agrees-if arch (is_rv32 arch && ltb 31 (c_uimm instr)) instr _
      (λ fits. inr (decode-make_srai arch _ _ (c_uimm instr) fits (c_uimm-lt instr)))
expand-decodes Opcode.c_andi arch instr h = inr (decode-make_andi arch _ _ _)
expand-decodes Opcode.c_sub arch instr h = inr (decode-make_sub arch _ _ _)
expand-decodes Opcode.c_xor arch instr h = inr (decode-make_xor arch _ _ _)
expand-decodes Opcode.c_or arch instr h = inr (decode-make_or arch _ _ _)
expand-decodes Opcode.c_and arch instr h = inr (decode-make_and arch _ _ _)
expand-decodes Opcode.c_subw arch instr h = inr (decode-make_subw arch _ _ _)
expand-decodes Opcode.c_addw arch instr h = inr (decode-make_addw arch _ _ _)
expand-decodes Opcode.c_j arch instr h = inr (decode-make_jal arch _ _)
expand-decodes Opcode.c_beqz arch instr h = inr (decode-make_beq arch _ _ _)
expand-decodes Opcode.c_bnez arch instr h = inr (decode-make_bne arch _ _ _)
expand-decodes Opcode.c_slli arch instr h =
    Agrees-if arch (is_rv32 arch && ltb 31 (c_uimm instr)) instr _
      (λ fits. inr (decode-make_slli arch _ _ (c_uimm instr) fits (c_uimm-lt instr)))
expand-decodes Opcode.c_fldsp arch instr h = inr (decode-make_fld arch _ _ _)
expand-decodes Opcode.c_lqsp arch instr h = inl refl
expand-decodes Opcode.c_lwsp arch instr h =
    Agrees-if arch (c_rd instr == 0) instr _ (λ _. inr (decode-make_lw arch _ _ _))
expand-decodes Opcode.c_flwsp arch instr h = inr (decode-make_flw arch _ _ _)
expand-decodes Opcode.c_ldsp arch instr h =
    Agrees-if arch (c_rd instr == 0) instr _ (λ _. inr (decode-make_ld arch _ _ _))
expand-decodes Opcode.c_jr arch instr h =
    Agrees-if arch (c_rd instr == 0) instr _ (λ _. inr (decode-make_jalr arch _ _ _))
expand-decodes Opcode.c_mv arch instr h = inr (decode-make_add arch _ _ _)
expand-decodes Opcode.c_ebreak arch instr h = inr (decode-make_ebreak arch)
expand-decodes Opcode.c_jalr arch instr h = inr (decode-make_jalr arch _ _ _)
expand-decodes Opcode.c_add arch instr h = inr (decode-make_add arch _ _ _)
expand-decodes Opcode.c_fsdsp arch instr h = inr (decode-make_fsd arch _ _ _)
expand-decodes Opcode.c_sqsp arch instr h = inl refl
expand-decodes Opcode.c_swsp arch instr h = inr (decode-make_sw arch _ _ _)
expand-decodes Opcode.c_fswsp arch instr h = inr (decode-make_fsw arch _ _ _)
expand-decodes Opcode.c_sdsp arch instr h = inr (decode-make_sd arch _ _ _)

-- C.ADDIW with a destination other than register 0 is returned as ADDIW beside a word that decodes
-- to ADDI.
pub expand-addiw :
    (arch : Architecture) (instr : ℕ)
    → c_rd instr ≢ 0
    → let r = expand_compressed Opcode.c_addiw arch instr in
      (r.0 ≡ Mapping.addiw) × (decode_normal arch r.1 ≡ Mapping.addi)
unfolding expand_compressed
expand-addiw arch instr h =
    let e : (c_rd instr == 0) ≡ false = ground arith in rw e (refl, decode-make_addi arch _ _ _)
