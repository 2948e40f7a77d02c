-- ===== src/Core/Exec/Operands.antt =====
-- What the integer instructions compute from the registers: the cases ADDI to AUIPC, the branches,
-- the multiplications and divisions, and the atomic operations of `ISS::exec_step` in
-- vp/src/core/rv32/iss.cpp. An `int32_t` is kept as its bit pattern, and a register is truncated when
-- it is written. A table has no entry for an instruction that another table holds.
use dse_vp.Base.{
  ℕ, ◌+◌, ◌-◌, ◌*◌, ◌/◌, ◌%◌, ◌^◌, Bool, true, false, not, ◌&&◌, Option, none, some, bit_and,
  bit_or, bit_xor, ltb, ◌==◌, if◌then◌else◌, u32, ◌<<◌, ◌>>◌, sar, is_negative, add32, sub32,
}
use dse_vp.Core.Opcode.{Mapping}
use dse_vp.Core.Instr.{rs1, rs2, i_imm, u_imm, shamt, funct3, funct7, bit_range}
use dse_vp.Crypto.Nice.{
  custom3_sm3p0, custom3_sm3p1, custom3_sm4ks, custom3_sm4ed, custom3_sm4ks_t, custom3_sm4ed_t,
  custom3_sm4ks_linear, custom3_sm4ed_linear, custom3_sm4ks_sub, custom3_sm4ed_sub,
}

-- `a < b` of two `int32_t`.
abbrev pub signed_lt : ℕ → ℕ → Bool
signed_lt a b =
    if is_negative a
    then (if is_negative b then ltb a b else true)
    else (if is_negative b then false else ltb a b)

-- A truth value that is assigned to an integer.
abbrev pub to_int : Bool → ℕ
to_int b = if b then 1 else 0

abbrev pub negate : ℕ → ℕ
negate a = u32 (2 ^ 32 - a)

abbrev pub magnitude : ℕ → ℕ
magnitude a = if is_negative a then 2 ^ 32 - a else a

-- `RegFile::shamt` of the value of the register.
unfoldable pub reg_shamt : ℕ → ℕ
reg_shamt v = bit_range v 4 0

-- The value of a destination register from the registers and `last_pc`.
abbrev pub Value : Type 0
Value = (ℕ → ℕ) → ℕ → ℕ

unfoldable pub imm_value : Mapping → ℕ → Option Value
imm_value Mapping.addi i = some λ regs last_pc. add32 (regs (rs1 i)) (i_imm i)
imm_value Mapping.slti i = some λ regs last_pc. to_int (signed_lt (regs (rs1 i)) (i_imm i))
imm_value Mapping.sltiu i = some λ regs last_pc. to_int (ltb (regs (rs1 i)) (i_imm i))
imm_value Mapping.xori i = some λ regs last_pc. bit_xor (regs (rs1 i)) (i_imm i)
imm_value Mapping.ori i = some λ regs last_pc. bit_or (regs (rs1 i)) (i_imm i)
imm_value Mapping.andi i = some λ regs last_pc. bit_and (regs (rs1 i)) (i_imm i)
imm_value _ i = none

unfoldable pub reg_value : Mapping → ℕ → Option Value
reg_value Mapping.add i = some λ regs last_pc. add32 (regs (rs1 i)) (regs (rs2 i))
reg_value Mapping.sub i = some λ regs last_pc. sub32 (regs (rs1 i)) (regs (rs2 i))
reg_value Mapping.sll i = some λ regs last_pc. u32 (regs (rs1 i) << reg_shamt (regs (rs2 i)))
reg_value Mapping.slt i = some λ regs last_pc. to_int (signed_lt (regs (rs1 i)) (regs (rs2 i)))
reg_value Mapping.sltu i = some λ regs last_pc. to_int (ltb (regs (rs1 i)) (regs (rs2 i)))
reg_value Mapping.srl i = some λ regs last_pc. regs (rs1 i) >> reg_shamt (regs (rs2 i))
reg_value Mapping.sra i = some λ regs last_pc. sar (regs (rs1 i)) (reg_shamt (regs (rs2 i)))
reg_value Mapping.xor i = some λ regs last_pc. bit_xor (regs (rs1 i)) (regs (rs2 i))
reg_value Mapping.or i = some λ regs last_pc. bit_or (regs (rs1 i)) (regs (rs2 i))
reg_value Mapping.and i = some λ regs last_pc. bit_and (regs (rs1 i)) (regs (rs2 i))
reg_value _ i = none

unfoldable pub shift_value : Mapping → ℕ → Option Value
shift_value Mapping.slli i = some λ regs last_pc. u32 (regs (rs1 i) << shamt i)
shift_value Mapping.srli i = some λ regs last_pc. regs (rs1 i) >> shamt i
shift_value Mapping.srai i = some λ regs last_pc. sar (regs (rs1 i)) (shamt i)
shift_value Mapping.lui i = some λ regs last_pc. u_imm i
shift_value Mapping.auipc i = some λ regs last_pc. add32 last_pc (u_imm i)
shift_value _ i = none

-- A custom instruction that is none of these writes no register.
unfoldable pub nice_value : ℕ → Option Value
nice_value i =
    let f = funct7 i in
    if not (funct3 i == 7)
    then none
    else if f == 0
    then some (λ regs last_pc. add32 (regs (rs1 i)) (regs (rs2 i)))
    else if f == 1
    then some (λ regs last_pc. custom3_sm3p0 (regs (rs1 i)))
    else if f == 2
    then some (λ regs last_pc. custom3_sm3p1 (regs (rs1 i)))
    else if f == 3
    then some (λ regs last_pc. custom3_sm4ks (regs (rs1 i)) (regs (rs2 i)))
    else if f == 4
    then some (λ regs last_pc. custom3_sm4ed (regs (rs1 i)) (regs (rs2 i)))
    else if f == 5
    then some (λ regs last_pc. custom3_sm4ks_t (regs (rs1 i)))
    else if f == 6
    then some (λ regs last_pc. custom3_sm4ed_t (regs (rs1 i)))
    else if f == 7
    then some (λ regs last_pc. custom3_sm4ks_linear (regs (rs1 i)))
    else if f == 8
    then some (λ regs last_pc. custom3_sm4ed_linear (regs (rs1 i)))
    else if f == 9
    then some (λ regs last_pc. custom3_sm4ks_sub (regs (rs1 i)))
    else if f == 10
    then some (λ regs last_pc. custom3_sm4ed_sub (regs (rs1 i)))
    else none

-- Whether a branch is taken, from the two registers.
unfoldable pub branch_taken : Mapping → Option (ℕ → ℕ → Bool)
branch_taken Mapping.beq = some λ a b. a == b
branch_taken Mapping.bne = some λ a b. not (a == b)
branch_taken Mapping.blt = some λ a b. signed_lt a b
branch_taken Mapping.bge = some λ a b. not (signed_lt a b)
branch_taken Mapping.bltu = some λ a b. ltb a b
branch_taken Mapping.bgeu = some λ a b. not (ltb a b)
branch_taken _ = none

-- The cast of an `int32_t` to 64 bits.
abbrev pub signed64 : ℕ → ℕ
signed64 a = if is_negative a then a + 2 ^ 64 - 2 ^ 32 else a

-- `(ans & 0xFFFFFFFF00000000) >> 32` of the product of two 64-bit operands.
abbrev pub high_half : ℕ → ℕ → ℕ
high_half a b = bit_and (a * b % 2 ^ 64) 0xFFFFFFFF00000000 >> 32

unfoldable pub mul : ℕ → ℕ → ℕ
mul a b = bit_and (signed64 a * signed64 b % 2 ^ 64) 0xFFFFFFFF

unfoldable pub mulh : ℕ → ℕ → ℕ
mulh a b = high_half (signed64 a) (signed64 b)

unfoldable pub mulhu : ℕ → ℕ → ℕ
mulhu a b = high_half a b

unfoldable pub mulhsu : ℕ → ℕ → ℕ
mulhsu a b = high_half (signed64 a) b

-- `a / b` of two `int32_t`, towards zero, and the remainder `a % b`, which has the sign of `a`.
abbrev pub quotient : ℕ → ℕ → ℕ
quotient a b =
    let q = magnitude a / magnitude b in
    if is_negative a
    then (if is_negative b then q else negate q)
    else (if is_negative b then negate q else q)

abbrev pub remainder : ℕ → ℕ → ℕ
remainder a b = let r = magnitude a % magnitude b in if is_negative a then negate r else r

-- The smallest `int32_t` divided by -1.
abbrev pub overflows : ℕ → ℕ → Bool
overflows a b = a == 2 ^ 31 && b == 2 ^ 32 - 1

unfoldable pub div : ℕ → ℕ → ℕ
div a b = if b == 0 then 2 ^ 32 - 1 else if overflows a b then a else quotient a b

unfoldable pub divu : ℕ → ℕ → ℕ
divu a b = if b == 0 then 2 ^ 32 - 1 else a / b

unfoldable pub rem : ℕ → ℕ → ℕ
rem a b = if b == 0 then a else if overflows a b then 0 else remainder a b

unfoldable pub remu : ℕ → ℕ → ℕ
remu a b = if b == 0 then a else a % b

unfoldable pub mul_value : Mapping → Option (ℕ → ℕ → ℕ)
mul_value Mapping.mul = some mul
mul_value Mapping.mulh = some mulh
mul_value Mapping.mulhu = some mulhu
mul_value Mapping.mulhsu = some mulhsu
mul_value Mapping.div = some div
mul_value Mapping.divu = some divu
mul_value Mapping.rem = some rem
mul_value Mapping.remu = some remu
mul_value _ = none

-- The operation of an atomic instruction on the word in memory and the register.
unfoldable pub amo_value : Mapping → Option (ℕ → ℕ → ℕ)
amo_value Mapping.amoswap_w = some λ a b. b
amo_value Mapping.amoadd_w = some λ a b. add32 a b
amo_value Mapping.amoxor_w = some λ a b. bit_xor a b
amo_value Mapping.amoand_w = some λ a b. bit_and a b
amo_value Mapping.amoor_w = some λ a b. bit_or a b
amo_value Mapping.amomin_w = some λ a b. if signed_lt b a then b else a
amo_value Mapping.amominu_w = some λ a b. if ltb b a then b else a
amo_value Mapping.amomax_w = some λ a b. if signed_lt a b then b else a
amo_value Mapping.amomaxu_w = some λ a b. if ltb a b then b else a
amo_value _ = none
