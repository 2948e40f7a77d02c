-- ===== src/Core/Instr/Expand/Shifts.antt =====
-- The shifts and the 32-bit sums of the factory decode to the instruction that they are made for.
use dse_vp.Base.{
  ℕ, ◌+◌, ◌*◌, ◌%◌, ◌^◌, ◌<◌, ◌≡◌, refl, ◌∙◌, arith, bit_and, false, ◌&&◌, ltb, bit_or, or-zero,
  ◌<<◌, sym, ap,
}
use dse_vp.Core.Opcode.{Mapping}
use dse_vp.Core.Opcode.Masks.{mask, encoding}
use dse_vp.Core.Instr.{opcode, funct3, funct6, funct7}
use dse_vp.Core.Instr.Fields.{opcode-eq, funct3-eq, funct6-eq, funct7-eq}
use dse_vp.Core.Instr.Factory.{make_slli, make_srli, make_srai, make_addw, make_subw}
use dse_vp.Core.Instr.Factory.Words.{r_word, shift_word}
use dse_vp.Core.Instr.Expand.MaskFields.{mask_funct7, mask_funct6}
use dse_vp.Core.Instr.Decode.{
  Architecture, is_rv32, match_instr, match_instr2, decode_op_imm, decode_op_32,
}
use dse_vp.Core.Instr.Decode.All.{decode_normal}

slli_wide :
    (arch : Architecture) (d a n : ℕ)
    → is_rv32 arch ≡ false
    → decode_normal arch (make_slli d a n) ≡ Mapping.slli
unfolding decode_normal decode_op_imm match_instr match_instr2 mask encoding make_slli
slli_wide arch d a n wide =
    let w = make_slli d a n in
    let e = shift_word d a n 19 1 0 (omega arith) (omega arith) (omega arith) in
    let o : opcode w ≡ 19 = omega (arith, opcode-eq w, e) in
    let f : funct3 w ≡ 1 = omega (arith, funct3-eq w, e) in
    let m : bit_and w 4227887231 ≡ 4115 = omega (arith, mask_funct6 w, e) in rw (o, f, m, wide) refl

pub decode-make_slli :
    (arch : Architecture) (d a n : ℕ)
    → is_rv32 arch && ltb 31 n ≡ false
    → n < 64
    → decode_normal arch (make_slli d a n) ≡ Mapping.slli
unfolding decode_normal decode_op_imm match_instr match_instr2 mask encoding make_slli
decode-make_slli Architecture.rv32 d a n fits h =
    let w = make_slli d a n in
    let e = shift_word d a n 19 1 0 (omega arith) (omega arith) (omega arith) in
    let o : opcode w ≡ 19 = omega (arith, opcode-eq w, e) in
    let f : funct3 w ≡ 1 = omega (arith, funct3-eq w, e) in
    let m : bit_and w 4261441663 ≡ 4115 = ground (arith, mask_funct7 w, e) in rw (o, f, m) refl
decode-make_slli Architecture.rv64 d a n fits h = slli_wide Architecture.rv64 d a n refl
decode-make_slli Architecture.rv128 d a n fits h = slli_wide Architecture.rv128 d a n refl

srli_wide :
    (arch : Architecture) (d a n : ℕ)
    → is_rv32 arch ≡ false
    → decode_normal arch (make_srli d a n) ≡ Mapping.srli
unfolding decode_normal decode_op_imm match_instr match_instr2 mask encoding make_srli
srli_wide arch d a n wide =
    let w = make_srli d a n in
    let e = shift_word d a n 19 5 0 (omega arith) (omega arith) (omega arith) in
    let o : opcode w ≡ 19 = omega (arith, opcode-eq w, e) in
    let f : funct3 w ≡ 5 = omega (arith, funct3-eq w, e) in
    let g : funct6 w ≡ 0 = omega (arith, funct6-eq w (omega (arith, e)), e) in
    let m : bit_and w 4227887231 ≡ 20499 = omega (arith, mask_funct6 w, e) in
    rw (o, f, g, m, wide) refl

pub decode-make_srli :
    (arch : Architecture) (d a n : ℕ)
    → is_rv32 arch && ltb 31 n ≡ false
    → n < 64
    → decode_normal arch (make_srli d a n) ≡ Mapping.srli
unfolding decode_normal decode_op_imm match_instr match_instr2 mask encoding make_srli
decode-make_srli Architecture.rv32 d a n fits h =
    let w = make_srli d a n in
    let e = shift_word d a n 19 5 0 (omega arith) (omega arith) (omega arith) in
    let o : opcode w ≡ 19 = omega (arith, opcode-eq w, e) in
    let f : funct3 w ≡ 5 = omega (arith, funct3-eq w, e) in
    let g : funct6 w ≡ 0 = omega (arith, funct6-eq w (omega (arith, e)), e) in
    let m : bit_and w 4261441663 ≡ 20499 = ground (arith, mask_funct7 w, e) in rw (o, f, g, m) refl
decode-make_srli Architecture.rv64 d a n fits h = srli_wide Architecture.rv64 d a n refl
decode-make_srli Architecture.rv128 d a n fits h = srli_wide Architecture.rv128 d a n refl

srai_wide :
    (arch : Architecture) (d a n : ℕ)
    → is_rv32 arch ≡ false
    → decode_normal arch (make_srai d a n) ≡ Mapping.srai
unfolding decode_normal decode_op_imm match_instr match_instr2 mask encoding make_srai
srai_wide arch d a n wide =
    let w = make_srai d a n in
    let e = shift_word d a n 19 5 16 (omega arith) (omega arith) (omega arith) in
    let o : opcode w ≡ 19 = omega (arith, opcode-eq w, e) in
    let f : funct3 w ≡ 5 = omega (arith, funct3-eq w, e) in
    let g : funct6 w ≡ 16 = omega (arith, funct6-eq w (omega (arith, e)), e) in
    let m : bit_and w 4227887231 ≡ 1073762323 = omega (arith, mask_funct6 w, e) in
    rw (o, f, g, m, wide) refl

pub decode-make_srai :
    (arch : Architecture) (d a n : ℕ)
    → is_rv32 arch && ltb 31 n ≡ false
    → n < 64
    → decode_normal arch (make_srai d a n) ≡ Mapping.srai
unfolding decode_normal decode_op_imm match_instr match_instr2 mask encoding make_srai
decode-make_srai Architecture.rv32 d a n fits h =
    let w = make_srai d a n in
    let e = shift_word d a n 19 5 16 (omega arith) (omega arith) (omega arith) in
    let o : opcode w ≡ 19 = omega (arith, opcode-eq w, e) in
    let f : funct3 w ≡ 5 = omega (arith, funct3-eq w, e) in
    let g : funct6 w ≡ 16 = omega (arith, funct6-eq w (omega (arith, e)), e) in
    let m : bit_and w 4261441663 ≡ 1073762323 = ground (arith, mask_funct7 w, e) in
    rw (o, f, g, m) refl
decode-make_srai Architecture.rv64 d a n fits h = srai_wide Architecture.rv64 d a n refl
decode-make_srai Architecture.rv128 d a n fits h = srai_wide Architecture.rv128 d a n refl

pub decode-make_addw :
    (arch : Architecture) (d a b : ℕ) → decode_normal arch (make_addw d a b) ≡ Mapping.addw
unfolding decode_normal decode_op_32 match_instr match_instr2 mask encoding make_addw
decode-make_addw arch d a b =
    let w = make_addw d a b in
    let r = r_word d a b 59 0 0 (omega arith) (omega arith) (omega arith) in
    let e : w ≡ 59 + d % 32 * 2 ^ 7 + a % 32 * 2 ^ 15 + b % 32 * 2 ^ 20 + 0 * 2 ^ 25 =
      sym (or-zero w) ∙ sym (or-zero (bit_or w 0)) ∙ r ∙ omega arith in
    let o : opcode w ≡ 59 = omega (arith, opcode-eq w, e) in
    let f : funct3 w ≡ 0 = omega (arith, funct3-eq w, e) in
    let g : funct7 w ≡ 0 = omega (arith, funct7-eq w (omega (arith, e)), e) in
    let m : bit_and w 4261441663 ≡ 59 = omega (arith, mask_funct7 w, e) in rw (o, g, f, m) refl

pub decode-make_subw :
    (arch : Architecture) (d a b : ℕ) → decode_normal arch (make_subw d a b) ≡ Mapping.subw
unfolding decode_normal decode_op_32 match_instr match_instr2 mask encoding make_subw
decode-make_subw arch d a b =
    let w = make_subw d a b in
    let r = r_word d a b 59 0 32 (omega arith) (omega arith) (omega arith) in
    let e : w ≡ 59 + d % 32 * 2 ^ 7 + a % 32 * 2 ^ 15 + b % 32 * 2 ^ 20 + 32 * 2 ^ 25 =
      sym (
        ap (λ t. bit_or t 1073741824)
          (or-zero (
            bit_or (bit_or (bit_or (bit_and d 31 << 7) (bit_and a 31 << 15)) (bit_and b 31 << 20))
              59)))
      ∙ r
      ∙ omega arith in
    let o : opcode w ≡ 59 = omega (arith, opcode-eq w, e) in
    let f : funct3 w ≡ 0 = omega (arith, funct3-eq w, e) in
    let g : funct7 w ≡ 32 = omega (arith, funct7-eq w (omega (arith, e)), e) in
    let m : bit_and w 4261441663 ≡ 1073741883 = omega (arith, mask_funct7 w, e) in
    rw (o, g, f, m) refl
