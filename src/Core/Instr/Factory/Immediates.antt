-- ===== src/Core/Instr/Factory/Immediates.antt =====
-- Immediates that are put into a word by the factory and read back by the fields.
use dse_vp.Base.{ℕ, ◌%◌, ◌^◌, ◌<◌, ◌≡◌, arith}
use dse_vp.Core.Instr.{rd, rs1, rs2, i_imm, s_imm, b_imm, j_imm}
use dse_vp.Core.Instr.Fields.{
  sign_extend, rd-eq, rs1-eq, rs2-eq, i_imm-eq, s_imm-eq, b_imm-eq, j_imm-eq,
}
use dse_vp.Core.Instr.Factory.{make_addi, make_sw, make_beq, make_jal}
use dse_vp.Core.Instr.Factory.Words.{i_word, s_word, b_word, j_word}

-- A 32-bit pattern that is the sign extension of its low `w` bits.
abbrev pub IsSigned : ℕ → ℕ → Type 0
IsSigned w imm = imm ≡ sign_extend w (imm % 2 ^ w)

-- The operands of an ADDI from the factory come back: register numbers below 32 and a signed
-- immediate of 12 bits.
make_addi-fields :
    (d a imm : ℕ)
    → d < 32
    → a < 32
    → IsSigned 12 imm
    → let w = make_addi d a imm in (rd w ≡ d) × (rs1 w ≡ a) × (i_imm w ≡ imm)
unfolding make_addi
make_addi-fields d a imm hd ha signed =
    let w = make_addi d a imm in
    let e = i_word d a imm 19 0 (omega arith) (omega arith) in
    (
      omega (arith, rd-eq w, e),
      omega (arith, rs1-eq w, e),
      ground (arith, i_imm-eq w (omega (arith, e)), e),
    )

-- The operands of an SW from the factory come back: register numbers below 32 and a signed offset
-- of 12 bits.
make_sw-fields :
    (a b imm : ℕ)
    → a < 32
    → b < 32
    → IsSigned 12 imm
    → let w = make_sw a b imm in (rs1 w ≡ a) × (rs2 w ≡ b) × (s_imm w ≡ imm)
unfolding make_sw
make_sw-fields a b imm ha hb signed =
    let w = make_sw a b imm in
    let e = s_word a b imm 35 2 (omega arith) (omega arith) in
    (
      omega (arith, rs1-eq w, e),
      omega (arith, rs2-eq w, e),
      ground (arith, s_imm-eq w (omega (arith, e)), e),
    )

-- The operands of a BEQ from the factory come back: register numbers below 32 and an even signed
-- offset of 13 bits.
pub make_beq-fields :
    (a b imm : ℕ)
    → a < 32
    → b < 32
    → IsSigned 13 imm
    → imm % 2 ≡ 0
    → let w = make_beq a b imm in (rs1 w ≡ a) × (rs2 w ≡ b) × (b_imm w ≡ imm)
unfolding make_beq
make_beq-fields a b imm ha hb signed even =
    let w = make_beq a b imm in
    let e = b_word a b imm 99 0 (omega arith) (omega arith) in
    (
      omega (arith, rs1-eq w, e),
      omega (arith, rs2-eq w, e),
      ground (arith, b_imm-eq w (omega (arith, e)), e),
    )

-- The operands of a JAL from the factory come back: a register number below 32 and an even signed
-- offset of 21 bits.
pub make_jal-fields :
    (d imm : ℕ)
    → d < 32
    → IsSigned 21 imm
    → imm % 2 ≡ 0
    → let w = make_jal d imm in (rd w ≡ d) × (j_imm w ≡ imm)
unfolding make_jal
make_jal-fields d imm hd signed even =
    let w = make_jal d imm in
    let e = j_word d imm in
    (omega (arith, rd-eq w, e), ground (arith, j_imm-eq w (omega (arith, e)), e))
