-- ===== src/Core/Instr/Expand/Jumps.antt =====
-- The offsets of compressed jumps and branches.
use dse_vp.Base.{ℕ, ◌+◌, ◌*◌, ◌/◌, ◌%◌, ◌^◌, ◌≡◌, refl, arith, ◌∙◌, and_field, ◌<<◌}
use dse_vp.Core.Instr.{
  bit_slice, bit_single_pn, extract_sign_bit, b_imm, j_imm, c_rd_small, rd, rs1, rs2,
}
use dse_vp.Core.Opcode.{Mapping}
use dse_vp.Core.Instr.Decode.{Architecture}
use dse_vp.Core.Instr.Decode.All.{decode_normal}
use dse_vp.Core.Instr.Expand.{expand_compressed}
use dse_vp.Core.Instr.Expand.Decodes.{decode-make_jal, decode-make_beq}
use dse_vp.Core.Instr.Factory.Immediates.{make_jal-fields, make_beq-fields}
use dse_vp.Core.Instr.Fields.{sign_extend}
use dse_vp.Core.Instr.Factory.{◌|%◌}
use dse_vp.Core.Instr.Factory.Words.{or_add}
use dse_vp.Core.Instr.Compressed.{Opcode, c_jal_imm, c_j_imm, c_branch_imm}

-- The offset of C.J and C.JAL has its bits 11, 4, 9 to 8, 10, 6, 7, 3 to 1 and 5 in the bits 12 down to 2.
pub c_jal_imm-eq :
    (n : ℕ)
    → c_jal_imm n
      ≡ sign_extend 12 (
          n / 2 ^ 12 % 2 * 2 ^ 11
          + n / 2 ^ 11 % 2 * 2 ^ 4
          + n / 2 ^ 9 % 4 * 2 ^ 8
          + n / 2 ^ 8 % 2 * 2 ^ 10
          + n / 2 ^ 7 % 2 * 2 ^ 6
          + n / 2 ^ 6 % 2 * 2 ^ 7
          + n / 2 ^ 3 % 8 * 2 ^ 1
          + n / 2 ^ 2 % 2 * 2 ^ 5)
unfolding c_jal_imm
c_jal_imm-eq n =
    let x0 = extract_sign_bit n 12 11 in
    let e0 : x0 ≡ sign_extend 12 (n / 2 ^ 12 % 2 * 2 ^ 11) = ground (arith, and_field 1 12 n) in
    let x1 = x0 |% bit_single_pn n 11 4 in
    let e1 : x1 ≡ x0 + (n / 2 ^ 11 % 2) * 2 ^ 4 =
      or_add 1 4 x0 (n / 2 ^ 11 % 2) _ (omega (arith, and_field 1 11 n)) (ground arith)
        (omega arith) in
    let x2 = x1 |% (bit_slice n 10 9 << 8) in
    let e2 : x2 ≡ x1 + (n / 2 ^ 9 % 4) * 2 ^ 8 =
      or_add 2 8 x1 (n / 2 ^ 9 % 4) _ (omega (arith, and_field 2 9 n)) (ground arith)
        (omega arith) in
    let x3 = x2 |% bit_single_pn n 8 10 in
    let e3 : x3 ≡ x2 + (n / 2 ^ 8 % 2) * 2 ^ 10 =
      or_add 1 10 x2 (n / 2 ^ 8 % 2) _ (omega (arith, and_field 1 8 n)) (ground arith)
        (omega arith) in
    let x4 = x3 |% bit_single_pn n 7 6 in
    let e4 : x4 ≡ x3 + (n / 2 ^ 7 % 2) * 2 ^ 6 =
      or_add 1 6 x3 (n / 2 ^ 7 % 2) _ (omega (arith, and_field 1 7 n)) (ground arith)
        (omega arith) in
    let x5 = x4 |% bit_single_pn n 6 7 in
    let e5 : x5 ≡ x4 + (n / 2 ^ 6 % 2) * 2 ^ 7 =
      or_add 1 7 x4 (n / 2 ^ 6 % 2) _ (omega (arith, and_field 1 6 n)) (ground arith)
        (omega arith) in
    let x6 = x5 |% (bit_slice n 5 3 << 1) in
    let e6 : x6 ≡ x5 + (n / 2 ^ 3 % 8) * 2 ^ 1 =
      or_add 3 1 x5 (n / 2 ^ 3 % 8) _ (omega (arith, and_field 3 3 n)) (ground arith)
        (omega arith) in
    let x7 = x6 |% bit_single_pn n 2 5 in
    let e7 : x7 ≡ x6 + (n / 2 ^ 2 % 2) * 2 ^ 5 =
      or_add 1 5 x6 (n / 2 ^ 2 % 2) _ (omega (arith, and_field 1 2 n)) (ground arith)
        (omega arith) in
    ground arith

-- The offset of C.BEQZ and C.BNEZ has its bits 8, 4 to 3, 7 to 6, 2 to 1 and 5 in the bits 12 to 10 and 6 to 2.
pub c_branch_imm-eq :
    (n : ℕ)
    → c_branch_imm n
      ≡ sign_extend 9 (
          n / 2 ^ 12 % 2 * 2 ^ 8
          + n / 2 ^ 10 % 4 * 2 ^ 3
          + n / 2 ^ 5 % 4 * 2 ^ 6
          + n / 2 ^ 3 % 4 * 2 ^ 1
          + n / 2 ^ 2 % 2 * 2 ^ 5)
unfolding c_branch_imm
c_branch_imm-eq n =
    let x0 = extract_sign_bit n 12 8 in
    let e0 : x0 ≡ sign_extend 9 (n / 2 ^ 12 % 2 * 2 ^ 8) = ground (arith, and_field 1 12 n) in
    let x1 = x0 |% (bit_slice n 11 10 << 3) in
    let e1 : x1 ≡ x0 + (n / 2 ^ 10 % 4) * 2 ^ 3 =
      or_add 2 3 x0 (n / 2 ^ 10 % 4) _ (omega (arith, and_field 2 10 n)) (ground arith)
        (omega arith) in
    let x2 = x1 |% (bit_slice n 6 5 << 6) in
    let e2 : x2 ≡ x1 + (n / 2 ^ 5 % 4) * 2 ^ 6 =
      or_add 2 6 x1 (n / 2 ^ 5 % 4) _ (omega (arith, and_field 2 5 n)) (ground arith)
        (omega arith) in
    let x3 = x2 |% (bit_slice n 4 3 << 1) in
    let e3 : x3 ≡ x2 + (n / 2 ^ 3 % 4) * 2 ^ 1 =
      or_add 2 1 x2 (n / 2 ^ 3 % 4) _ (omega (arith, and_field 2 3 n)) (ground arith)
        (omega arith) in
    let x4 = x3 |% bit_single_pn n 2 5 in
    let e4 : x4 ≡ x3 + (n / 2 ^ 2 % 2) * 2 ^ 5 =
      or_add 1 5 x3 (n / 2 ^ 2 % 2) _ (omega (arith, and_field 1 2 n)) (ground arith)
        (omega arith) in
    ground arith

pub c_rd_small-eq : (instr : ℕ) → c_rd_small instr ≡ 8 + instr / 2 ^ 7 % 8
unfolding c_rd_small
c_rd_small-eq instr =
    let e : bit_slice instr 9 7 |% 8 ≡ bit_slice instr 9 7 + 1 * 2 ^ 3 =
      or_add 1 3 (bit_slice instr 9 7) 1 8 refl (omega (arith, and_field 3 7 instr))
        (omega arith) in
    omega (arith, and_field 3 7 instr)

-- The word that C.J is written out as decodes to JAL, links to register 0, and its offset is the
-- signed number whose bits 11, 4, 9 to 8, 10, 6, 7, 3 to 1 and 5 are the bits 12 down to 2 of C.J.
expand-jump :
    (arch : Architecture) (instr : ℕ)
    → let w = (expand_compressed Opcode.c_j arch instr).1 in
      (decode_normal arch w ≡ Mapping.jal)
      × (rd w ≡ 0)
      × (j_imm w
          ≡ sign_extend 12 (
              instr / 2 ^ 12 % 2 * 2 ^ 11
              + instr / 2 ^ 11 % 2 * 2 ^ 4
              + instr / 2 ^ 9 % 4 * 2 ^ 8
              + instr / 2 ^ 8 % 2 * 2 ^ 10
              + instr / 2 ^ 7 % 2 * 2 ^ 6
              + instr / 2 ^ 6 % 2 * 2 ^ 7
              + instr / 2 ^ 3 % 8 * 2 ^ 1
              + instr / 2 ^ 2 % 2 * 2 ^ 5))
unfolding expand_compressed c_j_imm
expand-jump arch instr =
    let e = c_jal_imm-eq instr in
    let (d, i) = make_jal-fields 0 (c_jal_imm instr) (omega arith) (ground arith) (ground arith) in
    (decode-make_jal arch 0 (c_jal_imm instr), d, i ∙ e)

-- The word that C.BEQZ is written out as decodes to BEQ, compares one of the registers 8 to 15 with
-- register 0, and its offset is the signed number whose bits 8, 4 to 3, 7 to 6, 2 to 1 and 5 are
-- the bits 12 to 10 and 6 to 2 of C.BEQZ.
expand-branch :
    (arch : Architecture) (instr : ℕ)
    → let w = (expand_compressed Opcode.c_beqz arch instr).1 in
      (decode_normal arch w ≡ Mapping.beq)
      × (rs1 w ≡ 8 + instr / 2 ^ 7 % 8)
      × (rs2 w ≡ 0)
      × (b_imm w
          ≡ sign_extend 9 (
              instr / 2 ^ 12 % 2 * 2 ^ 8
              + instr / 2 ^ 10 % 4 * 2 ^ 3
              + instr / 2 ^ 5 % 4 * 2 ^ 6
              + instr / 2 ^ 3 % 4 * 2 ^ 1
              + instr / 2 ^ 2 % 2 * 2 ^ 5))
unfolding expand_compressed
expand-branch arch instr =
    let e = c_branch_imm-eq instr in
    let r = c_rd_small-eq instr in
    let (a, b, i) =
      make_beq-fields (c_rd_small instr) 0 (c_branch_imm instr) (omega arith) (omega arith)
        (ground arith) (ground arith) in
    (decode-make_beq arch (c_rd_small instr) 0 (c_branch_imm instr), a ∙ r, b, i ∙ e)
