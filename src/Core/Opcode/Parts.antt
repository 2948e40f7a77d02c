-- ===== src/Core/Opcode/Parts.antt =====
-- The values of the opcode field: the constants `OP_` of `Opcode::Parts` in
-- vp/src/core/common/instr.h.
use dse_vp.Base.{ℕ}

abbrev pub op_lui : ℕ
op_lui = 55

abbrev pub op_auipc : ℕ
op_auipc = 23

abbrev pub op_jal : ℕ
op_jal = 111

abbrev pub op_jalr : ℕ
op_jalr = 103

abbrev pub op_lb : ℕ
op_lb = 3

abbrev pub op_sb : ℕ
op_sb = 35

abbrev pub op_beq : ℕ
op_beq = 99

abbrev pub op_addi : ℕ
op_addi = 19

abbrev pub op_add : ℕ
op_add = 51

abbrev pub op_fence : ℕ
op_fence = 15

abbrev pub op_ecall : ℕ
op_ecall = 115

abbrev pub op_amo : ℕ
op_amo = 47

abbrev pub op_addiw : ℕ
op_addiw = 27

abbrev pub op_addw : ℕ
op_addw = 59

abbrev pub op_fmadd_s : ℕ
op_fmadd_s = 67

abbrev pub op_fadd_s : ℕ
op_fadd_s = 83

abbrev pub op_flw : ℕ
op_flw = 7

abbrev pub op_fsw : ℕ
op_fsw = 39

abbrev pub op_fmsub_s : ℕ
op_fmsub_s = 71

abbrev pub op_fnmsub_s : ℕ
op_fnmsub_s = 75

abbrev pub op_fnmadd_s : ℕ
op_fnmadd_s = 79

abbrev pub op_cust0 : ℕ
op_cust0 = 11

abbrev pub op_cust1 : ℕ
op_cust1 = 43

abbrev pub op_cust2 : ℕ
op_cust2 = 91

abbrev pub op_cust3 : ℕ
op_cust3 = 123
