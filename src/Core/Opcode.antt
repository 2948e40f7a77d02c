-- ===== src/Core/Opcode.antt =====
-- Names of instructions and their formats: `Opcode::Mapping`, `Opcode::Type` and `Opcode::getType`
-- of vp/src/core/common/instr.h and instr.cpp.
pub mod Masks
pub mod Parts
use dse_vp.Base.{ℕ}

pub data Mapping : Type 0 where
  undef : Mapping
  lui : Mapping
  auipc : Mapping
  jal : Mapping
  jalr : Mapping
  beq : Mapping
  bne : Mapping
  blt : Mapping
  bge : Mapping
  bltu : Mapping
  bgeu : Mapping
  lb : Mapping
  lh : Mapping
  lw : Mapping
  lbu : Mapping
  lhu : Mapping
  sb : Mapping
  sh : Mapping
  sw : Mapping
  addi : Mapping
  slti : Mapping
  sltiu : Mapping
  xori : Mapping
  ori : Mapping
  andi : Mapping
  slli : Mapping
  srli : Mapping
  srai : Mapping
  add : Mapping
  sub : Mapping
  sll : Mapping
  slt : Mapping
  sltu : Mapping
  xor : Mapping
  srl : Mapping
  sra : Mapping
  or : Mapping
  and : Mapping
  fence : Mapping
  ecall : Mapping
  ebreak : Mapping
  fence_i : Mapping
  csrrw : Mapping
  csrrs : Mapping
  csrrc : Mapping
  csrrwi : Mapping
  csrrsi : Mapping
  csrrci : Mapping
  mul : Mapping
  mulh : Mapping
  mulhsu : Mapping
  mulhu : Mapping
  div : Mapping
  divu : Mapping
  rem : Mapping
  remu : Mapping
  lr_w : Mapping
  sc_w : Mapping
  amoswap_w : Mapping
  amoadd_w : Mapping
  amoxor_w : Mapping
  amoand_w : Mapping
  amoor_w : Mapping
  amomin_w : Mapping
  amomax_w : Mapping
  amominu_w : Mapping
  amomaxu_w : Mapping
  lwu : Mapping
  ld : Mapping
  sd : Mapping
  addiw : Mapping
  slliw : Mapping
  srliw : Mapping
  sraiw : Mapping
  addw : Mapping
  subw : Mapping
  sllw : Mapping
  srlw : Mapping
  sraw : Mapping
  mulw : Mapping
  divw : Mapping
  divuw : Mapping
  remw : Mapping
  remuw : Mapping
  lr_d : Mapping
  sc_d : Mapping
  amoswap_d : Mapping
  amoadd_d : Mapping
  amoxor_d : Mapping
  amoand_d : Mapping
  amoor_d : Mapping
  amomin_d : Mapping
  amomax_d : Mapping
  amominu_d : Mapping
  amomaxu_d : Mapping
  flw : Mapping
  fsw : Mapping
  fmadd_s : Mapping
  fmsub_s : Mapping
  fnmadd_s : Mapping
  fnmsub_s : Mapping
  fadd_s : Mapping
  fsub_s : Mapping
  fmul_s : Mapping
  fdiv_s : Mapping
  fsqrt_s : Mapping
  fsgnj_s : Mapping
  fsgnjn_s : Mapping
  fsgnjx_s : Mapping
  fmin_s : Mapping
  fmax_s : Mapping
  fcvt_w_s : Mapping
  fcvt_wu_s : Mapping
  fmv_x_w : Mapping
  feq_s : Mapping
  flt_s : Mapping
  fle_s : Mapping
  fclass_s : Mapping
  fcvt_s_w : Mapping
  fcvt_s_wu : Mapping
  fmv_w_x : Mapping
  fcvt_l_s : Mapping
  fcvt_lu_s : Mapping
  fcvt_s_l : Mapping
  fcvt_s_lu : Mapping
  fld : Mapping
  fsd : Mapping
  fmadd_d : Mapping
  fmsub_d : Mapping
  fnmsub_d : Mapping
  fnmadd_d : Mapping
  fadd_d : Mapping
  fsub_d : Mapping
  fmul_d : Mapping
  fdiv_d : Mapping
  fsqrt_d : Mapping
  fsgnj_d : Mapping
  fsgnjn_d : Mapping
  fsgnjx_d : Mapping
  fmin_d : Mapping
  fmax_d : Mapping
  fcvt_s_d : Mapping
  fcvt_d_s : Mapping
  feq_d : Mapping
  flt_d : Mapping
  fle_d : Mapping
  fclass_d : Mapping
  fcvt_w_d : Mapping
  fcvt_wu_d : Mapping
  fcvt_d_w : Mapping
  fcvt_d_wu : Mapping
  fcvt_l_d : Mapping
  fcvt_lu_d : Mapping
  fmv_x_d : Mapping
  fcvt_d_l : Mapping
  fcvt_d_lu : Mapping
  fmv_d_x : Mapping
  uret : Mapping
  sret : Mapping
  mret : Mapping
  wfi : Mapping
  sfence_vma : Mapping
  custom0 : Mapping
  custom1 : Mapping
  custom2 : Mapping
  custom3 : Mapping

-- `Type`.
pub data Format : Type 0 where
  unknown_type : Format
  r_type : Format
  i_type : Format
  s_type : Format
  b_type : Format
  u_type : Format
  j_type : Format
  r4_type : Format

unfoldable pub get_type : Mapping → Format
get_type lui = u_type
get_type auipc = u_type
get_type jal = j_type
get_type jalr = i_type
get_type beq = b_type
get_type bne = b_type
get_type blt = b_type
get_type bge = b_type
get_type bltu = b_type
get_type bgeu = b_type
get_type lb = i_type
get_type lh = i_type
get_type lw = i_type
get_type lbu = i_type
get_type lhu = i_type
get_type sb = s_type
get_type sh = s_type
get_type sw = s_type
get_type addi = i_type
get_type slti = i_type
get_type sltiu = i_type
get_type xori = i_type
get_type ori = i_type
get_type andi = i_type
get_type slli = r_type
get_type srli = r_type
get_type srai = r_type
get_type add = r_type
get_type sub = r_type
get_type sll = r_type
get_type slt = r_type
get_type sltu = r_type
get_type xor = r_type
get_type srl = r_type
get_type sra = r_type
get_type or = r_type
get_type and = r_type
get_type mul = r_type
get_type mulh = r_type
get_type mulhsu = r_type
get_type mulhu = r_type
get_type div = r_type
get_type divu = r_type
get_type rem = r_type
get_type remu = r_type
get_type lr_w = r_type
get_type sc_w = r_type
get_type amoswap_w = r_type
get_type amoadd_w = r_type
get_type amoxor_w = r_type
get_type amoand_w = r_type
get_type amoor_w = r_type
get_type amomin_w = r_type
get_type amomax_w = r_type
get_type amominu_w = r_type
get_type amomaxu_w = r_type
get_type lwu = i_type
get_type ld = i_type
get_type sd = s_type
get_type addiw = i_type
get_type slliw = i_type
get_type srliw = i_type
get_type sraiw = i_type
get_type addw = r_type
get_type subw = r_type
get_type sllw = r_type
get_type srlw = r_type
get_type sraw = r_type
get_type mulw = r_type
get_type divw = r_type
get_type divuw = r_type
get_type remw = r_type
get_type remuw = r_type
get_type lr_d = r_type
get_type sc_d = r_type
get_type amoswap_d = r_type
get_type amoadd_d = r_type
get_type amoxor_d = r_type
get_type amoand_d = r_type
get_type amoor_d = r_type
get_type amomin_d = r_type
get_type amomax_d = r_type
get_type amominu_d = r_type
get_type amomaxu_d = r_type
get_type flw = i_type
get_type fsw = s_type
get_type fmadd_s = r4_type
get_type fmsub_s = r4_type
get_type fnmadd_s = r4_type
get_type fnmsub_s = r4_type
get_type fadd_s = r_type
get_type fsub_s = r_type
get_type fmul_s = r_type
get_type fdiv_s = r_type
get_type fsqrt_s = r_type
get_type fsgnj_s = r_type
get_type fsgnjn_s = r_type
get_type fsgnjx_s = r_type
get_type fmin_s = r_type
get_type fmax_s = r_type
get_type fcvt_w_s = r_type
get_type fcvt_wu_s = r_type
get_type fmv_x_w = r_type
get_type feq_s = r_type
get_type flt_s = r_type
get_type fle_s = r_type
get_type fclass_s = r_type
get_type fcvt_s_w = r_type
get_type fcvt_s_wu = r_type
get_type fmv_w_x = r_type
get_type fcvt_l_s = r_type
get_type fcvt_lu_s = r_type
get_type fcvt_s_l = r_type
get_type fcvt_s_lu = r_type
get_type fld = i_type
get_type fsd = s_type
get_type fmadd_d = r4_type
get_type fmsub_d = r4_type
get_type fnmsub_d = r4_type
get_type fnmadd_d = r4_type
get_type fadd_d = r_type
get_type fsub_d = r_type
get_type fmul_d = r_type
get_type fdiv_d = r_type
get_type fsqrt_d = r_type
get_type fsgnj_d = r_type
get_type fsgnjn_d = r_type
get_type fsgnjx_d = r_type
get_type fmin_d = r_type
get_type fmax_d = r_type
get_type fcvt_s_d = r_type
get_type fcvt_d_s = r_type
get_type feq_d = r_type
get_type flt_d = r_type
get_type fle_d = r_type
get_type fclass_d = r_type
get_type fcvt_w_d = r_type
get_type fcvt_wu_d = r_type
get_type fcvt_d_w = r_type
get_type fcvt_d_wu = r_type
get_type fcvt_l_d = r_type
get_type fcvt_lu_d = r_type
get_type fmv_x_d = r_type
get_type fcvt_d_l = r_type
get_type fcvt_d_lu = r_type
get_type fmv_d_x = r_type
get_type custom0 = r_type
get_type custom1 = r_type
get_type custom2 = r_type
get_type custom3 = r_type
get_type _ = unknown_type
