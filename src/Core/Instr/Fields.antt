-- ===== src/Core/Instr/Fields.antt =====
-- The fields of an instruction word, as arithmetic on the word.
pub mod Parity
use dse_vp.Base.{
  ℕ, ◌+◌, ◌-◌, ◌*◌, ◌/◌, ◌%◌, ◌^◌, ◌<◌, ◌≡◌, ◌∙◌, arith, bit_or, if◌then◌else◌, and_field, sar, u32,
  ◌<<◌, ltb, or_field, ap,
}
use dse_vp.Core.Instr.{
  funct3, funct7, opcode, rd, rs1, rs2, bit_range, i_imm, funct5, funct6, funct12, funct2, s_imm,
  b_imm, j_imm, u_imm, shamt, bit_single,
}

pub opcode-eq : (x : ℕ) → opcode x ≡ x % 128
unfolding opcode
opcode-eq x = omega (arith, and_field 7 0 x)

pub funct3-eq : (x : ℕ) → funct3 x ≡ x / 4096 % 8
unfolding funct3
funct3-eq x = ground (arith, and_field 3 12 x)

pub rd-eq : (x : ℕ) → rd x ≡ x / 128 % 32
unfolding rd
rd-eq x = ground (arith, and_field 5 7 x)

pub rs1-eq : (x : ℕ) → rs1 x ≡ x / 2 ^ 15 % 32
unfolding rs1
rs1-eq x = ground (arith, and_field 5 15 x)

pub rs2-eq : (x : ℕ) → rs2 x ≡ x / 2 ^ 20 % 32
unfolding rs2
rs2-eq x = ground (arith, and_field 5 20 x)

pub funct7-eq : (x : ℕ) → x < 2 ^ 32 → funct7 x ≡ x / 2 ^ 25
unfolding funct7
funct7-eq x h = ground (arith, and_field 7 25 x)

-- A number of `w` bits, read as signed, as a 32-bit pattern.
abbrev pub sign_extend : ℕ → ℕ → ℕ
sign_extend w n = if ltb n (2 ^ (w - 1)) then n else n + 2 ^ 32 - 2 ^ w

pub i_imm-eq : (x : ℕ) → x < 2 ^ 32 → i_imm x ≡ sign_extend 12 (x / 2 ^ 20)
unfolding i_imm
i_imm-eq x h = ground (arith, and_field 12 20 x)

pub s_imm-eq : (x : ℕ) → x < 2 ^ 32 → s_imm x ≡ sign_extend 12 (x / 2 ^ 25 * 32 + x / 2 ^ 7 % 32)
unfolding s_imm
s_imm-eq x h =
    let a = sar (bit_range x 31 25) 20 in
    let b = sar (bit_range x 11 7) 7 in
    let ae : a ≡ sign_extend 12 (x / 2 ^ 25 * 32) = ground (arith, and_field 7 25 x) in
    let be : b ≡ x / 2 ^ 7 % 32 = ground (arith, and_field 5 7 x) in
    let s : bit_or a (b * 2 ^ 0) ≡ a + b * 2 ^ 0 = or_field 5 0 a b (ground arith) (omega arith) in
    ground arith

pub b_imm-eq :
    (x : ℕ)
    → x < 2 ^ 32
    → b_imm x
      ≡ sign_extend 13
          (x / 2 ^ 31 * 4096 + x / 2 ^ 7 % 2 * 2048 + x / 2 ^ 25 % 64 * 32 + x / 2 ^ 8 % 16 * 2)
unfolding b_imm
b_imm-eq x h =
    let a = sar (bit_single x 31) 19 in
    let b = u32 (bit_single x 7 << 4) in
    let c = sar (bit_range x 30 25) 20 in
    let d = sar (bit_range x 11 8) 7 in
    let ae : a ≡ sign_extend 13 (x / 2 ^ 31 * 4096) = ground (arith, and_field 1 31 x) in
    let be : b ≡ x / 2 ^ 7 % 2 * 2 ^ 11 = ground (arith, and_field 1 7 x) in
    let ce : c ≡ x / 2 ^ 25 % 64 * 2 ^ 5 = ground (arith, and_field 6 25 x) in
    let de : d ≡ x / 2 ^ 8 % 16 * 2 ^ 1 = ground (arith, and_field 4 8 x) in
    let ab : bit_or a b ≡ a + b =
      ap (bit_or a) be
      ∙ or_field 1 11 a (x / 2 ^ 7 % 2) (ground arith) (omega arith)
      ∙ omega arith in
    let abc : bit_or (bit_or a b) c ≡ bit_or a b + c =
      ap (bit_or (bit_or a b)) ce
      ∙ or_field 6 5 (bit_or a b) (x / 2 ^ 25 % 64) (ground arith) (omega arith)
      ∙ omega arith in
    let abcd : bit_or (bit_or (bit_or a b) c) d ≡ bit_or (bit_or a b) c + d =
      ap (bit_or (bit_or (bit_or a b) c)) de
      ∙ or_field 4 1 (bit_or (bit_or a b) c) (x / 2 ^ 8 % 16) (ground arith) (omega arith)
      ∙ omega arith in
    ground arith

pub j_imm-eq :
    (x : ℕ)
    → x < 2 ^ 32
    → j_imm x
      ≡ sign_extend 21 (
          x / 2 ^ 31 * 2 ^ 20
          + x / 2 ^ 12 % 256 * 2 ^ 12
          + x / 2 ^ 20 % 2 * 2 ^ 11
          + x / 2 ^ 21 % 1024 * 2)
unfolding j_imm
j_imm-eq x h =
    let a = sar (bit_single x 31) 11 in
    let b = bit_range x 19 12 in
    let c = sar (bit_single x 20) 9 in
    let d = sar (bit_range x 30 21) 20 in
    let ae : a ≡ sign_extend 21 (x / 2 ^ 31 * 2 ^ 20) = ground (arith, and_field 1 31 x) in
    let be : b ≡ x / 2 ^ 12 % 256 * 2 ^ 12 = ground (arith, and_field 8 12 x) in
    let ce : c ≡ x / 2 ^ 20 % 2 * 2 ^ 11 = ground (arith, and_field 1 20 x) in
    let de : d ≡ x / 2 ^ 21 % 1024 * 2 ^ 1 = ground (arith, and_field 10 21 x) in
    let ab : bit_or a b ≡ a + b =
      ap (bit_or a) be
      ∙ or_field 8 12 a (x / 2 ^ 12 % 256) (ground arith) (omega arith)
      ∙ omega arith in
    let abc : bit_or (bit_or a b) c ≡ bit_or a b + c =
      ap (bit_or (bit_or a b)) ce
      ∙ or_field 1 11 (bit_or a b) (x / 2 ^ 20 % 2) (ground arith) (omega arith)
      ∙ omega arith in
    let abcd : bit_or (bit_or (bit_or a b) c) d ≡ bit_or (bit_or a b) c + d =
      ap (bit_or (bit_or (bit_or a b) c)) de
      ∙ or_field 10 1 (bit_or (bit_or a b) c) (x / 2 ^ 21 % 1024) (ground arith) (omega arith)
      ∙ omega arith in
    ground arith

pub u_imm-eq : (x : ℕ) → x < 2 ^ 32 → u_imm x ≡ x / 4096 * 4096
unfolding u_imm
u_imm-eq x h = omega (arith, and_field 20 12 x)

pub funct2-eq : (x : ℕ) → funct2 x ≡ x / 2 ^ 25 % 4
unfolding funct2
funct2-eq x = ground (arith, and_field 2 25 x)

pub funct5-eq : (x : ℕ) → x < 2 ^ 32 → funct5 x ≡ x / 2 ^ 27
unfolding funct5
funct5-eq x h = ground (arith, and_field 5 27 x)

pub funct6-eq : (x : ℕ) → x < 2 ^ 32 → funct6 x ≡ x / 2 ^ 26
unfolding funct6
funct6-eq x h = ground (arith, and_field 6 26 x)

pub funct12-eq : (x : ℕ) → x < 2 ^ 32 → funct12 x ≡ x / 2 ^ 20
unfolding funct12
funct12-eq x h = ground (arith, and_field 12 20 x)

pub shamt-eq : (x : ℕ) → shamt x ≡ x / 2 ^ 20 % 64
unfolding shamt
shamt-eq x = ground (arith, and_field 6 20 x)
