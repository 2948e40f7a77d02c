-- ===== src/Core/Opcode/Masks.antt =====
-- The bits that an instruction fixes and their values: the constants at the head of
-- vp/src/core/common/instr.cpp.
use dse_vp.Base.{ℕ}
use dse_vp.Core.Opcode.{Mapping}

unfoldable pub mask : Mapping → ℕ
mask Mapping.lui = 127
mask Mapping.auipc = 127
mask Mapping.jal = 127
mask Mapping.jalr = 28799
mask Mapping.beq = 28799
mask Mapping.bne = 28799
mask Mapping.blt = 28799
mask Mapping.bge = 28799
mask Mapping.bltu = 28799
mask Mapping.bgeu = 28799
mask Mapping.lb = 28799
mask Mapping.lh = 28799
mask Mapping.lw = 28799
mask Mapping.lbu = 28799
mask Mapping.lhu = 28799
mask Mapping.sb = 28799
mask Mapping.sh = 28799
mask Mapping.sw = 28799
mask Mapping.addi = 28799
mask Mapping.slti = 28799
mask Mapping.sltiu = 28799
mask Mapping.xori = 28799
mask Mapping.ori = 28799
mask Mapping.andi = 28799
mask Mapping.slli = 4227887231
mask Mapping.srli = 4227887231
mask Mapping.srai = 4227887231
mask Mapping.add = 4261441663
mask Mapping.sub = 4261441663
mask Mapping.sll = 4261441663
mask Mapping.slt = 4261441663
mask Mapping.sltu = 4261441663
mask Mapping.xor = 4261441663
mask Mapping.srl = 4261441663
mask Mapping.sra = 4261441663
mask Mapping.or = 4261441663
mask Mapping.and = 4261441663
mask Mapping.fence = 28799
mask Mapping.ecall = 4294967295
mask Mapping.ebreak = 4294967295
mask Mapping.fence_i = 28799
mask Mapping.csrrw = 28799
mask Mapping.csrrs = 28799
mask Mapping.csrrc = 28799
mask Mapping.csrrwi = 28799
mask Mapping.csrrsi = 28799
mask Mapping.csrrci = 28799
mask Mapping.mul = 4261441663
mask Mapping.mulh = 4261441663
mask Mapping.mulhsu = 4261441663
mask Mapping.mulhu = 4261441663
mask Mapping.div = 4261441663
mask Mapping.divu = 4261441663
mask Mapping.rem = 4261441663
mask Mapping.remu = 4261441663
mask Mapping.lr_w = 4193284223
mask Mapping.sc_w = 4160778367
mask Mapping.amoswap_w = 4160778367
mask Mapping.amoadd_w = 4160778367
mask Mapping.amoxor_w = 4160778367
mask Mapping.amoand_w = 4160778367
mask Mapping.amoor_w = 4160778367
mask Mapping.amomin_w = 4160778367
mask Mapping.amomax_w = 4160778367
mask Mapping.amominu_w = 4160778367
mask Mapping.amomaxu_w = 4160778367
mask Mapping.lwu = 28799
mask Mapping.ld = 28799
mask Mapping.sd = 28799
mask Mapping.addiw = 28799
mask Mapping.slliw = 4261441663
mask Mapping.srliw = 4261441663
mask Mapping.sraiw = 4261441663
mask Mapping.addw = 4261441663
mask Mapping.subw = 4261441663
mask Mapping.sllw = 4261441663
mask Mapping.srlw = 4261441663
mask Mapping.sraw = 4261441663
mask Mapping.mulw = 4261441663
mask Mapping.divw = 4261441663
mask Mapping.divuw = 4261441663
mask Mapping.remw = 4261441663
mask Mapping.remuw = 4261441663
mask Mapping.lr_d = 4193284223
mask Mapping.sc_d = 4160778367
mask Mapping.amoswap_d = 4160778367
mask Mapping.amoadd_d = 4160778367
mask Mapping.amoxor_d = 4160778367
mask Mapping.amoand_d = 4160778367
mask Mapping.amoor_d = 4160778367
mask Mapping.amomin_d = 4160778367
mask Mapping.amomax_d = 4160778367
mask Mapping.amominu_d = 4160778367
mask Mapping.amomaxu_d = 4160778367
mask Mapping.flw = 28799
mask Mapping.fsw = 28799
mask Mapping.fmadd_s = 100663423
mask Mapping.fmsub_s = 100663423
mask Mapping.fnmadd_s = 100663423
mask Mapping.fnmsub_s = 100663423
mask Mapping.fadd_s = 4261412991
mask Mapping.fsub_s = 4261412991
mask Mapping.fmul_s = 4261412991
mask Mapping.fdiv_s = 4261412991
mask Mapping.fsqrt_s = 4293918847
mask Mapping.fsgnj_s = 4261441663
mask Mapping.fsgnjn_s = 4261441663
mask Mapping.fsgnjx_s = 4261441663
mask Mapping.fmin_s = 4261441663
mask Mapping.fmax_s = 4261441663
mask Mapping.fcvt_w_s = 4293918847
mask Mapping.fcvt_wu_s = 4293918847
mask Mapping.fmv_x_w = 4293947519
mask Mapping.feq_s = 4261441663
mask Mapping.flt_s = 4261441663
mask Mapping.fle_s = 4261441663
mask Mapping.fclass_s = 4293947519
mask Mapping.fcvt_s_w = 4293918847
mask Mapping.fcvt_s_wu = 4293918847
mask Mapping.fmv_w_x = 4293947519
mask Mapping.fcvt_l_s = 4293918847
mask Mapping.fcvt_lu_s = 4293918847
mask Mapping.fcvt_s_l = 4293918847
mask Mapping.fcvt_s_lu = 4293918847
mask Mapping.fld = 28799
mask Mapping.fsd = 28799
mask Mapping.fmadd_d = 100663423
mask Mapping.fmsub_d = 100663423
mask Mapping.fnmsub_d = 100663423
mask Mapping.fnmadd_d = 100663423
mask Mapping.fadd_d = 4261412991
mask Mapping.fsub_d = 4261412991
mask Mapping.fmul_d = 4261412991
mask Mapping.fdiv_d = 4261412991
mask Mapping.fsqrt_d = 4293918847
mask Mapping.fsgnj_d = 4261441663
mask Mapping.fsgnjn_d = 4261441663
mask Mapping.fsgnjx_d = 4261441663
mask Mapping.fmin_d = 4261441663
mask Mapping.fmax_d = 4261441663
mask Mapping.fcvt_s_d = 4293918847
mask Mapping.fcvt_d_s = 4293918847
mask Mapping.feq_d = 4261441663
mask Mapping.flt_d = 4261441663
mask Mapping.fle_d = 4261441663
mask Mapping.fclass_d = 4293947519
mask Mapping.fcvt_w_d = 4293918847
mask Mapping.fcvt_wu_d = 4293918847
mask Mapping.fcvt_d_w = 4293918847
mask Mapping.fcvt_d_wu = 4293918847
mask Mapping.fcvt_l_d = 4293918847
mask Mapping.fcvt_lu_d = 4293918847
mask Mapping.fmv_x_d = 4293947519
mask Mapping.fcvt_d_l = 4293918847
mask Mapping.fcvt_d_lu = 4293918847
mask Mapping.fmv_d_x = 4293947519
mask Mapping.uret = 4294967295
mask Mapping.sret = 4294967295
mask Mapping.mret = 4294967295
mask Mapping.wfi = 4294967295
mask Mapping.sfence_vma = 4261445631
mask Mapping.custom0 = 0
mask Mapping.custom1 = 1
mask Mapping.custom2 = 2
mask Mapping.custom3 = 3
mask _ = 0

unfoldable pub encoding : Mapping → ℕ
encoding Mapping.lui = 55
encoding Mapping.auipc = 23
encoding Mapping.jal = 111
encoding Mapping.jalr = 103
encoding Mapping.beq = 99
encoding Mapping.bne = 4195
encoding Mapping.blt = 16483
encoding Mapping.bge = 20579
encoding Mapping.bltu = 24675
encoding Mapping.bgeu = 28771
encoding Mapping.lb = 3
encoding Mapping.lh = 4099
encoding Mapping.lw = 8195
encoding Mapping.lbu = 16387
encoding Mapping.lhu = 20483
encoding Mapping.sb = 35
encoding Mapping.sh = 4131
encoding Mapping.sw = 8227
encoding Mapping.addi = 19
encoding Mapping.slti = 8211
encoding Mapping.sltiu = 12307
encoding Mapping.xori = 16403
encoding Mapping.ori = 24595
encoding Mapping.andi = 28691
encoding Mapping.slli = 4115
encoding Mapping.srli = 20499
encoding Mapping.srai = 1073762323
encoding Mapping.add = 51
encoding Mapping.sub = 1073741875
encoding Mapping.sll = 4147
encoding Mapping.slt = 8243
encoding Mapping.sltu = 12339
encoding Mapping.xor = 16435
encoding Mapping.srl = 20531
encoding Mapping.sra = 1073762355
encoding Mapping.or = 24627
encoding Mapping.and = 28723
encoding Mapping.fence = 15
encoding Mapping.ecall = 115
encoding Mapping.ebreak = 1048691
encoding Mapping.fence_i = 4111
encoding Mapping.csrrw = 4211
encoding Mapping.csrrs = 8307
encoding Mapping.csrrc = 12403
encoding Mapping.csrrwi = 20595
encoding Mapping.csrrsi = 24691
encoding Mapping.csrrci = 28787
encoding Mapping.mul = 33554483
encoding Mapping.mulh = 33558579
encoding Mapping.mulhsu = 33562675
encoding Mapping.mulhu = 33566771
encoding Mapping.div = 33570867
encoding Mapping.divu = 33574963
encoding Mapping.rem = 33579059
encoding Mapping.remu = 33583155
encoding Mapping.lr_w = 268443695
encoding Mapping.sc_w = 402661423
encoding Mapping.amoswap_w = 134225967
encoding Mapping.amoadd_w = 8239
encoding Mapping.amoxor_w = 536879151
encoding Mapping.amoand_w = 1610620975
encoding Mapping.amoor_w = 1073750063
encoding Mapping.amomin_w = 2147491887
encoding Mapping.amomax_w = 2684362799
encoding Mapping.amominu_w = 3221233711
encoding Mapping.amomaxu_w = 3758104623
encoding Mapping.lwu = 24579
encoding Mapping.ld = 12291
encoding Mapping.sd = 12323
encoding Mapping.addiw = 27
encoding Mapping.slliw = 4123
encoding Mapping.srliw = 20507
encoding Mapping.sraiw = 1073762331
encoding Mapping.addw = 59
encoding Mapping.subw = 1073741883
encoding Mapping.sllw = 4155
encoding Mapping.srlw = 20539
encoding Mapping.sraw = 1073762363
encoding Mapping.mulw = 33554491
encoding Mapping.divw = 33570875
encoding Mapping.divuw = 33574971
encoding Mapping.remw = 33579067
encoding Mapping.remuw = 33583163
encoding Mapping.lr_d = 268447791
encoding Mapping.sc_d = 402665519
encoding Mapping.amoswap_d = 134230063
encoding Mapping.amoadd_d = 12335
encoding Mapping.amoxor_d = 536883247
encoding Mapping.amoand_d = 1610625071
encoding Mapping.amoor_d = 1073754159
encoding Mapping.amomin_d = 2147495983
encoding Mapping.amomax_d = 2684366895
encoding Mapping.amominu_d = 3221237807
encoding Mapping.amomaxu_d = 3758108719
encoding Mapping.flw = 8199
encoding Mapping.fsw = 8231
encoding Mapping.fmadd_s = 67
encoding Mapping.fmsub_s = 71
encoding Mapping.fnmadd_s = 79
encoding Mapping.fnmsub_s = 75
encoding Mapping.fadd_s = 83
encoding Mapping.fsub_s = 134217811
encoding Mapping.fmul_s = 268435539
encoding Mapping.fdiv_s = 402653267
encoding Mapping.fsqrt_s = 1476395091
encoding Mapping.fsgnj_s = 536870995
encoding Mapping.fsgnjn_s = 536875091
encoding Mapping.fsgnjx_s = 536879187
encoding Mapping.fmin_s = 671088723
encoding Mapping.fmax_s = 671092819
encoding Mapping.fcvt_w_s = 3221225555
encoding Mapping.fcvt_wu_s = 3222274131
encoding Mapping.fmv_x_w = 3758096467
encoding Mapping.feq_s = 2684362835
encoding Mapping.flt_s = 2684358739
encoding Mapping.fle_s = 2684354643
encoding Mapping.fclass_s = 3758100563
encoding Mapping.fcvt_s_w = 3489661011
encoding Mapping.fcvt_s_wu = 3490709587
encoding Mapping.fmv_w_x = 4026531923
encoding Mapping.fcvt_l_s = 3223322707
encoding Mapping.fcvt_lu_s = 3224371283
encoding Mapping.fcvt_s_l = 3491758163
encoding Mapping.fcvt_s_lu = 3492806739
encoding Mapping.fld = 12295
encoding Mapping.fsd = 12327
encoding Mapping.fmadd_d = 33554499
encoding Mapping.fmsub_d = 33554503
encoding Mapping.fnmsub_d = 33554507
encoding Mapping.fnmadd_d = 33554511
encoding Mapping.fadd_d = 33554515
encoding Mapping.fsub_d = 167772243
encoding Mapping.fmul_d = 301989971
encoding Mapping.fdiv_d = 436207699
encoding Mapping.fsqrt_d = 1509949523
encoding Mapping.fsgnj_d = 570425427
encoding Mapping.fsgnjn_d = 570429523
encoding Mapping.fsgnjx_d = 570433619
encoding Mapping.fmin_d = 704643155
encoding Mapping.fmax_d = 704647251
encoding Mapping.fcvt_s_d = 1074790483
encoding Mapping.fcvt_d_s = 1107296339
encoding Mapping.feq_d = 2717917267
encoding Mapping.flt_d = 2717913171
encoding Mapping.fle_d = 2717909075
encoding Mapping.fclass_d = 3791654995
encoding Mapping.fcvt_w_d = 3254779987
encoding Mapping.fcvt_wu_d = 3255828563
encoding Mapping.fcvt_d_w = 3523215443
encoding Mapping.fcvt_d_wu = 3524264019
encoding Mapping.fcvt_l_d = 3256877139
encoding Mapping.fcvt_lu_d = 3257925715
encoding Mapping.fmv_x_d = 3791650899
encoding Mapping.fcvt_d_l = 3525312595
encoding Mapping.fcvt_d_lu = 3526361171
encoding Mapping.fmv_d_x = 4060086355
encoding Mapping.uret = 2097267
encoding Mapping.sret = 270532723
encoding Mapping.mret = 807403635
encoding Mapping.wfi = 273678451
encoding Mapping.sfence_vma = 301990003
encoding Mapping.custom0 = 0
encoding Mapping.custom1 = 1
encoding Mapping.custom2 = 2
encoding Mapping.custom3 = 3
encoding _ = 0

abbrev pub slli_32_mask : ℕ
slli_32_mask = 4261441663

abbrev pub slli_32_encoding : ℕ
slli_32_encoding = 4115

abbrev pub srli_32_mask : ℕ
srli_32_mask = 4261441663

abbrev pub srli_32_encoding : ℕ
srli_32_encoding = 20499

abbrev pub srai_32_mask : ℕ
srai_32_mask = 4261441663

abbrev pub srai_32_encoding : ℕ
srai_32_encoding = 1073762323
