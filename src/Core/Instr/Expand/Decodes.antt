-- ===== src/Core/Instr/Expand/Decodes.antt =====
-- The words of the factory decode to the instruction that they are made for.
use dse_vp.Base.{ℕ, ◌≡◌, refl, arith, bit_and}
use dse_vp.Core.Opcode.{Mapping}
use dse_vp.Core.Opcode.Masks.{mask, encoding}
use dse_vp.Core.Instr.{opcode, funct3, funct7, funct12}
use dse_vp.Core.Instr.Fields.{opcode-eq, funct3-eq, funct7-eq}
use dse_vp.Core.Instr.Factory.{
  make_add, make_addi, make_and, make_andi, make_beq, make_bne, make_ebreak, make_fld, make_flw,
  make_fsd, make_fsw, make_jal, make_jalr, make_ld, make_lui, make_lw, make_or, make_sd, make_sub,
  make_sw, make_xor,
}
use dse_vp.Core.Instr.Factory.Words.{r_word, i_word, s_word, b_word, u_word, j_word}
use dse_vp.Core.Instr.Expand.MaskFields.{mask_opcode, mask_funct3, mask_funct7}
use dse_vp.Core.Instr.Decode.{
  Architecture, match_instr, match_instr2, decode_branch, decode_load, decode_store, decode_op_imm,
  decode_op, decode_system,
}
use dse_vp.Core.Instr.Decode.Float.{decode_fp_load, decode_fp_store}
use dse_vp.Core.Instr.Decode.All.{decode_normal}

pub decode-make_add :
    (arch : Architecture) (d a b : ℕ) → decode_normal arch (make_add d a b) ≡ Mapping.add
unfolding decode_normal decode_op match_instr match_instr2 mask encoding make_add
decode-make_add arch d a b =
    let w = make_add d a b in
    let e = r_word d a b 51 0 0 (omega arith) (omega arith) (omega arith) in
    let o : opcode w ≡ 51 = omega (arith, opcode-eq w, e) in
    let f0 : funct7 w ≡ 0 = omega (arith, funct7-eq w (omega (arith, e)), e) in
    let f1 : funct3 w ≡ 0 = omega (arith, funct3-eq w, e) in
    let m : bit_and w 4261441663 ≡ 51 = omega (arith, mask_funct7 w, e) in rw (o, f0, f1, m) refl

pub decode-make_and :
    (arch : Architecture) (d a b : ℕ) → decode_normal arch (make_and d a b) ≡ Mapping.and
unfolding decode_normal decode_op match_instr match_instr2 mask encoding make_and
decode-make_and arch d a b =
    let w = make_and d a b in
    let e = r_word d a b 51 7 0 (omega arith) (omega arith) (omega arith) in
    let o : opcode w ≡ 51 = omega (arith, opcode-eq w, e) in
    let f0 : funct7 w ≡ 0 = omega (arith, funct7-eq w (omega (arith, e)), e) in
    let f1 : funct3 w ≡ 7 = omega (arith, funct3-eq w, e) in
    let m : bit_and w 4261441663 ≡ 28723 = omega (arith, mask_funct7 w, e) in rw (o, f0, f1, m) refl

pub decode-make_or :
    (arch : Architecture) (d a b : ℕ) → decode_normal arch (make_or d a b) ≡ Mapping.or
unfolding decode_normal decode_op match_instr match_instr2 mask encoding make_or
decode-make_or arch d a b =
    let w = make_or d a b in
    let e = r_word d a b 51 6 0 (omega arith) (omega arith) (omega arith) in
    let o : opcode w ≡ 51 = omega (arith, opcode-eq w, e) in
    let f0 : funct7 w ≡ 0 = omega (arith, funct7-eq w (omega (arith, e)), e) in
    let f1 : funct3 w ≡ 6 = omega (arith, funct3-eq w, e) in
    let m : bit_and w 4261441663 ≡ 24627 = omega (arith, mask_funct7 w, e) in rw (o, f0, f1, m) refl

pub decode-make_xor :
    (arch : Architecture) (d a b : ℕ) → decode_normal arch (make_xor d a b) ≡ Mapping.xor
unfolding decode_normal decode_op match_instr match_instr2 mask encoding make_xor
decode-make_xor arch d a b =
    let w = make_xor d a b in
    let e = r_word d a b 51 4 0 (omega arith) (omega arith) (omega arith) in
    let o : opcode w ≡ 51 = omega (arith, opcode-eq w, e) in
    let f0 : funct7 w ≡ 0 = omega (arith, funct7-eq w (omega (arith, e)), e) in
    let f1 : funct3 w ≡ 4 = omega (arith, funct3-eq w, e) in
    let m : bit_and w 4261441663 ≡ 16435 = omega (arith, mask_funct7 w, e) in rw (o, f0, f1, m) refl

pub decode-make_sub :
    (arch : Architecture) (d a b : ℕ) → decode_normal arch (make_sub d a b) ≡ Mapping.sub
unfolding decode_normal decode_op match_instr match_instr2 mask encoding make_sub
decode-make_sub arch d a b =
    let w = make_sub d a b in
    let e = r_word d a b 51 0 32 (omega arith) (omega arith) (omega arith) in
    let o : opcode w ≡ 51 = omega (arith, opcode-eq w, e) in
    let f0 : funct7 w ≡ 32 = omega (arith, funct7-eq w (omega (arith, e)), e) in
    let f1 : funct3 w ≡ 0 = omega (arith, funct3-eq w, e) in
    let m : bit_and w 4261441663 ≡ 1073741875 = omega (arith, mask_funct7 w, e) in
    rw (o, f0, f1, m) refl

pub decode-make_lw :
    (arch : Architecture) (d a imm : ℕ) → decode_normal arch (make_lw d a imm) ≡ Mapping.lw
unfolding decode_normal decode_load match_instr match_instr2 mask encoding make_lw
decode-make_lw arch d a imm =
    let w = make_lw d a imm in
    let e = i_word d a imm 3 2 (omega arith) (omega arith) in
    let o : opcode w ≡ 3 = omega (arith, opcode-eq w, e) in
    let f0 : funct3 w ≡ 2 = omega (arith, funct3-eq w, e) in
    let m : bit_and w 28799 ≡ 8195 = omega (arith, mask_funct3 w, e) in rw (o, f0, m) refl

pub decode-make_ld :
    (arch : Architecture) (d a imm : ℕ) → decode_normal arch (make_ld d a imm) ≡ Mapping.ld
unfolding decode_normal decode_load match_instr match_instr2 mask encoding make_ld
decode-make_ld arch d a imm =
    let w = make_ld d a imm in
    let e = i_word d a imm 3 3 (omega arith) (omega arith) in
    let o : opcode w ≡ 3 = omega (arith, opcode-eq w, e) in
    let f0 : funct3 w ≡ 3 = omega (arith, funct3-eq w, e) in
    let m : bit_and w 28799 ≡ 12291 = omega (arith, mask_funct3 w, e) in rw (o, f0, m) refl

pub decode-make_flw :
    (arch : Architecture) (d a imm : ℕ) → decode_normal arch (make_flw d a imm) ≡ Mapping.flw
unfolding decode_normal decode_fp_load match_instr match_instr2 mask encoding make_flw
decode-make_flw arch d a imm =
    let w = make_flw d a imm in
    let e = i_word d a imm 7 2 (omega arith) (omega arith) in
    let o : opcode w ≡ 7 = omega (arith, opcode-eq w, e) in
    let f0 : funct3 w ≡ 2 = omega (arith, funct3-eq w, e) in
    let m : bit_and w 28799 ≡ 8199 = omega (arith, mask_funct3 w, e) in rw (o, f0, m) refl

pub decode-make_fld :
    (arch : Architecture) (d a imm : ℕ) → decode_normal arch (make_fld d a imm) ≡ Mapping.fld
unfolding decode_normal decode_fp_load match_instr match_instr2 mask encoding make_fld
decode-make_fld arch d a imm =
    let w = make_fld d a imm in
    let e = i_word d a imm 7 3 (omega arith) (omega arith) in
    let o : opcode w ≡ 7 = omega (arith, opcode-eq w, e) in
    let f0 : funct3 w ≡ 3 = omega (arith, funct3-eq w, e) in
    let m : bit_and w 28799 ≡ 12295 = omega (arith, mask_funct3 w, e) in rw (o, f0, m) refl

pub decode-make_addi :
    (arch : Architecture) (d a imm : ℕ) → decode_normal arch (make_addi d a imm) ≡ Mapping.addi
unfolding decode_normal decode_op_imm match_instr match_instr2 mask encoding make_addi
decode-make_addi arch d a imm =
    let w = make_addi d a imm in
    let e = i_word d a imm 19 0 (omega arith) (omega arith) in
    let o : opcode w ≡ 19 = omega (arith, opcode-eq w, e) in
    let f0 : funct3 w ≡ 0 = omega (arith, funct3-eq w, e) in
    let m : bit_and w 28799 ≡ 19 = omega (arith, mask_funct3 w, e) in rw (o, f0, m) refl

pub decode-make_andi :
    (arch : Architecture) (d a imm : ℕ) → decode_normal arch (make_andi d a imm) ≡ Mapping.andi
unfolding decode_normal decode_op_imm match_instr match_instr2 mask encoding make_andi
decode-make_andi arch d a imm =
    let w = make_andi d a imm in
    let e = i_word d a imm 19 7 (omega arith) (omega arith) in
    let o : opcode w ≡ 19 = omega (arith, opcode-eq w, e) in
    let f0 : funct3 w ≡ 7 = omega (arith, funct3-eq w, e) in
    let m : bit_and w 28799 ≡ 28691 = omega (arith, mask_funct3 w, e) in rw (o, f0, m) refl

pub decode-make_jalr :
    (arch : Architecture) (d a imm : ℕ) → decode_normal arch (make_jalr d a imm) ≡ Mapping.jalr
unfolding decode_normal match_instr match_instr2 mask encoding make_jalr
decode-make_jalr arch d a imm =
    let w = make_jalr d a imm in
    let e = i_word d a imm 103 0 (omega arith) (omega arith) in
    let o : opcode w ≡ 103 = omega (arith, opcode-eq w, e) in
    let m : bit_and w 28799 ≡ 103 = omega (arith, mask_funct3 w, e) in rw (o, m) refl

pub decode-make_sw :
    (arch : Architecture) (a b imm : ℕ) → decode_normal arch (make_sw a b imm) ≡ Mapping.sw
unfolding decode_normal decode_store match_instr match_instr2 mask encoding make_sw
decode-make_sw arch a b imm =
    let w = make_sw a b imm in
    let e = s_word a b imm 35 2 (omega arith) (omega arith) in
    let o : opcode w ≡ 35 = omega (arith, opcode-eq w, e) in
    let f0 : funct3 w ≡ 2 = omega (arith, funct3-eq w, e) in
    let m : bit_and w 28799 ≡ 8227 = omega (arith, mask_funct3 w, e) in rw (o, f0, m) refl

pub decode-make_sd :
    (arch : Architecture) (a b imm : ℕ) → decode_normal arch (make_sd a b imm) ≡ Mapping.sd
unfolding decode_normal decode_store match_instr match_instr2 mask encoding make_sd
decode-make_sd arch a b imm =
    let w = make_sd a b imm in
    let e = s_word a b imm 35 3 (omega arith) (omega arith) in
    let o : opcode w ≡ 35 = omega (arith, opcode-eq w, e) in
    let f0 : funct3 w ≡ 3 = omega (arith, funct3-eq w, e) in
    let m : bit_and w 28799 ≡ 12323 = omega (arith, mask_funct3 w, e) in rw (o, f0, m) refl

pub decode-make_fsw :
    (arch : Architecture) (a b imm : ℕ) → decode_normal arch (make_fsw a b imm) ≡ Mapping.fsw
unfolding decode_normal decode_fp_store match_instr match_instr2 mask encoding make_fsw
decode-make_fsw arch a b imm =
    let w = make_fsw a b imm in
    let e = s_word a b imm 39 2 (omega arith) (omega arith) in
    let o : opcode w ≡ 39 = omega (arith, opcode-eq w, e) in
    let f0 : funct3 w ≡ 2 = omega (arith, funct3-eq w, e) in
    let m : bit_and w 28799 ≡ 8231 = omega (arith, mask_funct3 w, e) in rw (o, f0, m) refl

pub decode-make_fsd :
    (arch : Architecture) (a b imm : ℕ) → decode_normal arch (make_fsd a b imm) ≡ Mapping.fsd
unfolding decode_normal decode_fp_store match_instr match_instr2 mask encoding make_fsd
decode-make_fsd arch a b imm =
    let w = make_fsd a b imm in
    let e = s_word a b imm 39 3 (omega arith) (omega arith) in
    let o : opcode w ≡ 39 = omega (arith, opcode-eq w, e) in
    let f0 : funct3 w ≡ 3 = omega (arith, funct3-eq w, e) in
    let m : bit_and w 28799 ≡ 12327 = omega (arith, mask_funct3 w, e) in rw (o, f0, m) refl

pub decode-make_lui :
    (arch : Architecture) (d imm : ℕ) → decode_normal arch (make_lui d imm) ≡ Mapping.lui
unfolding decode_normal match_instr match_instr2 mask encoding make_lui
decode-make_lui arch d imm =
    let w = make_lui d imm in
    let e = u_word d imm 55 (omega arith) in
    let o : opcode w ≡ 55 = omega (arith, opcode-eq w, e) in
    let m : bit_and w 127 ≡ 55 = omega (arith, mask_opcode w, e) in rw (o, m) refl

pub decode-make_jal :
    (arch : Architecture) (d imm : ℕ) → decode_normal arch (make_jal d imm) ≡ Mapping.jal
unfolding decode_normal match_instr match_instr2 mask encoding make_jal
decode-make_jal arch d imm =
    let w = make_jal d imm in
    let e = j_word d imm in
    let o : opcode w ≡ 111 = omega (arith, opcode-eq w, e) in
    let m : bit_and w 127 ≡ 111 = omega (arith, mask_opcode w, e) in rw (o, m) refl

pub decode-make_beq :
    (arch : Architecture) (a b imm : ℕ) → decode_normal arch (make_beq a b imm) ≡ Mapping.beq
unfolding decode_normal decode_branch match_instr match_instr2 mask encoding make_beq
decode-make_beq arch a b imm =
    let w = make_beq a b imm in
    let e = b_word a b imm 99 0 (omega arith) (omega arith) in
    let o : opcode w ≡ 99 = omega (arith, opcode-eq w, e) in
    let f0 : funct3 w ≡ 0 = omega (arith, funct3-eq w, e) in
    let m : bit_and w 28799 ≡ 99 = omega (arith, mask_funct3 w, e) in rw (o, f0, m) refl

pub decode-make_bne :
    (arch : Architecture) (a b imm : ℕ) → decode_normal arch (make_bne a b imm) ≡ Mapping.bne
unfolding decode_normal decode_branch match_instr match_instr2 mask encoding make_bne
decode-make_bne arch a b imm =
    let w = make_bne a b imm in
    let e = b_word a b imm 99 1 (omega arith) (omega arith) in
    let o : opcode w ≡ 99 = omega (arith, opcode-eq w, e) in
    let f0 : funct3 w ≡ 1 = omega (arith, funct3-eq w, e) in
    let m : bit_and w 28799 ≡ 4195 = omega (arith, mask_funct3 w, e) in rw (o, f0, m) refl

pub decode-make_ebreak : (arch : Architecture) → decode_normal arch make_ebreak ≡ Mapping.ebreak
unfolding decode_normal decode_system match_instr match_instr2 mask encoding make_ebreak opcode
    funct3 funct12
decode-make_ebreak arch = refl
