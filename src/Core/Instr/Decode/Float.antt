-- ===== src/Core/Instr/Decode/Float.antt =====
-- The decoder of uncompressed instructions, `Instruction::decode_normal` of
-- vp/src/core/common/instr.cpp, for the floating-point opcodes.
use dse_vp.Base.{ℕ, [], ◌∷◌}
use dse_vp.Core.Opcode.{Mapping}
use dse_vp.Core.Instr.{funct2, funct3, funct7, rs2}
use dse_vp.Core.Instr.Decode.{switch, match_instr}

unfoldable pub decode_fp : ℕ → Mapping
decode_fp instr =
    switch (funct7 instr)
      ((0, match_instr Mapping.fadd_s instr)
        ∷ (1, match_instr Mapping.fadd_d instr)
        ∷ (4, match_instr Mapping.fsub_s instr)
        ∷ (5, match_instr Mapping.fsub_d instr)
        ∷ (33, match_instr Mapping.fcvt_d_s instr)
        ∷ (8, match_instr Mapping.fmul_s instr)
        ∷ (9, match_instr Mapping.fmul_d instr)
        ∷ (12, match_instr Mapping.fdiv_s instr)
        ∷ (13, match_instr Mapping.fdiv_d instr)
        ∷ (
          80,
          switch (funct3 instr)
              ((0, match_instr Mapping.fle_s instr)
                ∷ (1, match_instr Mapping.flt_s instr)
                ∷ (2, match_instr Mapping.feq_s instr)
                ∷ [])
              Mapping.undef,
        )
        ∷ (
          17,
          switch (funct3 instr)
              ((0, match_instr Mapping.fsgnj_d instr)
                ∷ (1, match_instr Mapping.fsgnjn_d instr)
                ∷ (2, match_instr Mapping.fsgnjx_d instr)
                ∷ [])
              Mapping.undef,
        )
        ∷ (
          20,
          switch (funct3 instr)
              ((0, match_instr Mapping.fmin_s instr) ∷ (1, match_instr Mapping.fmax_s instr) ∷ [])
              Mapping.undef,
        )
        ∷ (
          21,
          switch (funct3 instr)
              ((0, match_instr Mapping.fmin_d instr) ∷ (1, match_instr Mapping.fmax_d instr) ∷ [])
              Mapping.undef,
        )
        ∷ (32, match_instr Mapping.fcvt_s_d instr)
        ∷ (
          16,
          switch (funct3 instr)
              ((0, match_instr Mapping.fsgnj_s instr)
                ∷ (1, match_instr Mapping.fsgnjn_s instr)
                ∷ (2, match_instr Mapping.fsgnjx_s instr)
                ∷ [])
              Mapping.undef,
        )
        ∷ (
          81,
          switch (funct3 instr)
              ((0, match_instr Mapping.fle_d instr)
                ∷ (1, match_instr Mapping.flt_d instr)
                ∷ (2, match_instr Mapping.feq_d instr)
                ∷ [])
              Mapping.undef,
        )
        ∷ (
          104,
          switch (rs2 instr)
              ((0, match_instr Mapping.fcvt_s_w instr)
                ∷ (1, match_instr Mapping.fcvt_s_wu instr)
                ∷ (2, match_instr Mapping.fcvt_s_l instr)
                ∷ (3, match_instr Mapping.fcvt_s_lu instr)
                ∷ [])
              Mapping.undef,
        )
        ∷ (
          105,
          switch (rs2 instr)
              ((0, match_instr Mapping.fcvt_d_w instr)
                ∷ (1, match_instr Mapping.fcvt_d_wu instr)
                ∷ (2, match_instr Mapping.fcvt_d_l instr)
                ∷ (3, match_instr Mapping.fcvt_d_lu instr)
                ∷ [])
              Mapping.undef,
        )
        ∷ (
          97,
          switch (rs2 instr)
              ((0, match_instr Mapping.fcvt_w_d instr)
                ∷ (1, match_instr Mapping.fcvt_wu_d instr)
                ∷ (2, match_instr Mapping.fcvt_l_d instr)
                ∷ (3, match_instr Mapping.fcvt_lu_d instr)
                ∷ [])
              Mapping.undef,
        )
        ∷ (44, match_instr Mapping.fsqrt_s instr)
        ∷ (45, match_instr Mapping.fsqrt_d instr)
        ∷ (
          96,
          switch (rs2 instr)
              ((0, match_instr Mapping.fcvt_w_s instr)
                ∷ (1, match_instr Mapping.fcvt_wu_s instr)
                ∷ (2, match_instr Mapping.fcvt_l_s instr)
                ∷ (3, match_instr Mapping.fcvt_lu_s instr)
                ∷ [])
              Mapping.undef,
        )
        ∷ (
          112,
          switch (funct3 instr)
              ((0, match_instr Mapping.fmv_x_w instr)
                ∷ (1, match_instr Mapping.fclass_s instr)
                ∷ [])
              Mapping.undef,
        )
        ∷ (
          113,
          switch (funct3 instr)
              ((0, match_instr Mapping.fmv_x_d instr)
                ∷ (1, match_instr Mapping.fclass_d instr)
                ∷ [])
              Mapping.undef,
        )
        ∷ (120, match_instr Mapping.fmv_w_x instr)
        ∷ (121, match_instr Mapping.fmv_d_x instr)
        ∷ [])
      Mapping.undef

unfoldable pub decode_fmadd : ℕ → Mapping
decode_fmadd instr =
    switch (funct2 instr)
      ((0, match_instr Mapping.fmadd_s instr) ∷ (1, match_instr Mapping.fmadd_d instr) ∷ [])
      Mapping.undef

unfoldable pub decode_fmsub : ℕ → Mapping
decode_fmsub instr =
    switch (funct2 instr)
      ((0, match_instr Mapping.fmsub_s instr) ∷ (1, match_instr Mapping.fmsub_d instr) ∷ [])
      Mapping.undef

unfoldable pub decode_fnmsub : ℕ → Mapping
decode_fnmsub instr =
    switch (funct2 instr)
      ((0, match_instr Mapping.fnmsub_s instr) ∷ (1, match_instr Mapping.fnmsub_d instr) ∷ [])
      Mapping.undef

unfoldable pub decode_fnmadd : ℕ → Mapping
decode_fnmadd instr =
    switch (funct2 instr)
      ((0, match_instr Mapping.fnmadd_s instr) ∷ (1, match_instr Mapping.fnmadd_d instr) ∷ [])
      Mapping.undef

unfoldable pub decode_fp_load : ℕ → Mapping
decode_fp_load instr =
    switch (funct3 instr)
      ((2, match_instr Mapping.flw instr) ∷ (3, match_instr Mapping.fld instr) ∷ []) Mapping.undef

unfoldable pub decode_fp_store : ℕ → Mapping
decode_fp_store instr =
    switch (funct3 instr)
      ((2, match_instr Mapping.fsw instr) ∷ (3, match_instr Mapping.fsd instr) ∷ []) Mapping.undef
