-- ===== src/Core/Instr/Decode.antt =====
-- The decoder of uncompressed instructions, `Instruction::decode_normal` of
-- vp/src/core/common/instr.cpp, for the integer opcodes. The outer `switch` is in the child All, with a
-- definition here for each opcode that looks at further fields.
pub mod Float
pub mod All
use dse_vp.Base.{ℕ, Bool, true, false, not, bit_and, ◌==◌, if◌then◌else◌, List, [], ◌∷◌}
use dse_vp.Core.Opcode.{Mapping}
use dse_vp.Core.Opcode.Masks.{
  mask, encoding, slli_32_mask, slli_32_encoding, srli_32_mask, srli_32_encoding, srai_32_mask,
  srai_32_encoding,
}
use dse_vp.Core.Instr.{funct2, funct3, funct5, funct6, funct7, funct12}

pub data Architecture : Type 0 where
  rv32 : Architecture
  rv64 : Architecture
  rv128 : Architecture

abbrev pub is_rv32 : Architecture → Bool
is_rv32 Architecture.rv32 = true
is_rv32 _ = false

-- A `switch` whose cases all leave it.
abbrev pub switch {ℓ} : {A : Type ℓ} → ℕ → List (ℕ × A) → A → A
switch x [] otherwise = otherwise
switch x ((k, v) ∷ l) otherwise = if x == k then v else switch x l otherwise

-- `MATCH_AND_RETURN_INSTR2` and `MATCH_AND_RETURN_INSTR`.
unfoldable pub match_instr2 : ℕ → ℕ → Mapping → ℕ → Mapping
match_instr2 fixed value result instr =
    if fixed == value
    then result
    else if not (bit_and instr fixed == value)
    then Mapping.undef
    else result

unfoldable pub match_instr : Mapping → ℕ → Mapping
match_instr op instr = match_instr2 (mask op) (encoding op) op instr

unfoldable pub decode_branch : ℕ → Mapping
decode_branch instr =
    switch (funct3 instr)
      ((0, match_instr Mapping.beq instr)
        ∷ (1, match_instr Mapping.bne instr)
        ∷ (4, match_instr Mapping.blt instr)
        ∷ (5, match_instr Mapping.bge instr)
        ∷ (6, match_instr Mapping.bltu instr)
        ∷ (7, match_instr Mapping.bgeu instr)
        ∷ [])
      Mapping.undef

unfoldable pub decode_load : ℕ → Mapping
decode_load instr =
    switch (funct3 instr)
      ((0, match_instr Mapping.lb instr)
        ∷ (1, match_instr Mapping.lh instr)
        ∷ (2, match_instr Mapping.lw instr)
        ∷ (4, match_instr Mapping.lbu instr)
        ∷ (5, match_instr Mapping.lhu instr)
        ∷ (6, match_instr Mapping.lwu instr)
        ∷ (3, match_instr Mapping.ld instr)
        ∷ [])
      Mapping.undef

unfoldable pub decode_store : ℕ → Mapping
decode_store instr =
    switch (funct3 instr)
      ((0, match_instr Mapping.sb instr)
        ∷ (1, match_instr Mapping.sh instr)
        ∷ (2, match_instr Mapping.sw instr)
        ∷ (3, match_instr Mapping.sd instr)
        ∷ [])
      Mapping.undef

unfoldable pub decode_op_imm : Architecture → ℕ → Mapping
decode_op_imm arch instr =
    switch (funct3 instr)
      ((0, match_instr Mapping.addi instr)
        ∷ (2, match_instr Mapping.slti instr)
        ∷ (3, match_instr Mapping.sltiu instr)
        ∷ (4, match_instr Mapping.xori instr)
        ∷ (6, match_instr Mapping.ori instr)
        ∷ (7, match_instr Mapping.andi instr)
        ∷ (
          1,
          if is_rv32 arch
              then match_instr2 slli_32_mask slli_32_encoding Mapping.slli instr
              else match_instr Mapping.slli instr,
        )
        ∷ (
          5,
          switch (funct6 instr)
              ((
                0,
                if is_rv32 arch
                    then match_instr2 srli_32_mask srli_32_encoding Mapping.srli instr
                    else match_instr Mapping.srli instr,
              )
                ∷ (
                  16,
                  if is_rv32 arch
                      then match_instr2 srai_32_mask srai_32_encoding Mapping.srai instr
                      else match_instr Mapping.srai instr,
                )
                ∷ [])
              Mapping.undef,
        )
        ∷ [])
      Mapping.undef

unfoldable pub decode_op_imm_32 : ℕ → Mapping
decode_op_imm_32 instr =
    switch (funct3 instr)
      ((0, match_instr Mapping.addiw instr)
        ∷ (1, match_instr Mapping.slliw instr)
        ∷ (
          5,
          switch (funct7 instr)
              ((0, match_instr Mapping.srliw instr) ∷ (32, match_instr Mapping.sraiw instr) ∷ [])
              Mapping.undef,
        )
        ∷ [])
      Mapping.undef

unfoldable pub decode_op : ℕ → Mapping
decode_op instr =
    switch (funct7 instr)
      ((
        0,
        switch (funct3 instr)
            ((0, match_instr Mapping.add instr)
              ∷ (1, match_instr Mapping.sll instr)
              ∷ (2, match_instr Mapping.slt instr)
              ∷ (3, match_instr Mapping.sltu instr)
              ∷ (4, match_instr Mapping.xor instr)
              ∷ (5, match_instr Mapping.srl instr)
              ∷ (6, match_instr Mapping.or instr)
              ∷ (7, match_instr Mapping.and instr)
              ∷ [])
            Mapping.undef,
      )
        ∷ (
          32,
          switch (funct3 instr)
              ((0, match_instr Mapping.sub instr) ∷ (5, match_instr Mapping.sra instr) ∷ [])
              Mapping.undef,
        )
        ∷ (
          1,
          switch (funct3 instr)
              ((0, match_instr Mapping.mul instr)
                ∷ (1, match_instr Mapping.mulh instr)
                ∷ (2, match_instr Mapping.mulhsu instr)
                ∷ (3, match_instr Mapping.mulhu instr)
                ∷ (4, match_instr Mapping.div instr)
                ∷ (5, match_instr Mapping.divu instr)
                ∷ (6, match_instr Mapping.rem instr)
                ∷ (7, match_instr Mapping.remu instr)
                ∷ [])
              Mapping.undef,
        )
        ∷ [])
      Mapping.undef

unfoldable pub decode_op_32 : ℕ → Mapping
decode_op_32 instr =
    switch (funct7 instr)
      ((
        0,
        switch (funct3 instr)
            ((0, match_instr Mapping.addw instr)
              ∷ (1, match_instr Mapping.sllw instr)
              ∷ (5, match_instr Mapping.srlw instr)
              ∷ [])
            Mapping.undef,
      )
        ∷ (
          32,
          switch (funct3 instr)
              ((0, match_instr Mapping.subw instr) ∷ (5, match_instr Mapping.sraw instr) ∷ [])
              Mapping.undef,
        )
        ∷ (
          1,
          switch (funct3 instr)
              ((0, match_instr Mapping.mulw instr)
                ∷ (4, match_instr Mapping.divw instr)
                ∷ (5, match_instr Mapping.divuw instr)
                ∷ (6, match_instr Mapping.remw instr)
                ∷ (7, match_instr Mapping.remuw instr)
                ∷ [])
              Mapping.undef,
        )
        ∷ [])
      Mapping.undef

unfoldable pub decode_fence : ℕ → Mapping
decode_fence instr =
    switch (funct3 instr)
      ((0, match_instr Mapping.fence instr) ∷ (1, match_instr Mapping.fence_i instr) ∷ [])
      Mapping.undef

unfoldable pub decode_system : ℕ → Mapping
decode_system instr =
    switch (funct3 instr)
      ((
        0,
        switch (funct12 instr)
            ((0, match_instr Mapping.ecall instr)
              ∷ (1, match_instr Mapping.ebreak instr)
              ∷ (2, match_instr Mapping.uret instr)
              ∷ (258, match_instr Mapping.sret instr)
              ∷ (770, match_instr Mapping.mret instr)
              ∷ (261, match_instr Mapping.wfi instr)
              ∷ [])
            (match_instr Mapping.sfence_vma instr),
      )
        ∷ (1, match_instr Mapping.csrrw instr)
        ∷ (2, match_instr Mapping.csrrs instr)
        ∷ (3, match_instr Mapping.csrrc instr)
        ∷ (5, match_instr Mapping.csrrwi instr)
        ∷ (6, match_instr Mapping.csrrsi instr)
        ∷ (7, match_instr Mapping.csrrci instr)
        ∷ [])
      Mapping.undef

unfoldable pub decode_amo : ℕ → Mapping
decode_amo instr =
    switch (funct5 instr)
      ((
        2,
        if funct3 instr == 3
            then match_instr Mapping.lr_d instr
            else match_instr Mapping.lr_w instr,
      )
        ∷ (
          3,
          if funct3 instr == 3
              then match_instr Mapping.sc_d instr
              else match_instr Mapping.sc_w instr,
        )
        ∷ (
          1,
          if funct3 instr == 3
              then match_instr Mapping.amoswap_d instr
              else match_instr Mapping.amoswap_w instr,
        )
        ∷ (
          0,
          if funct3 instr == 3
              then match_instr Mapping.amoadd_d instr
              else match_instr Mapping.amoadd_w instr,
        )
        ∷ (
          4,
          if funct3 instr == 3
              then match_instr Mapping.amoxor_d instr
              else match_instr Mapping.amoxor_w instr,
        )
        ∷ (
          12,
          if funct3 instr == 3
              then match_instr Mapping.amoand_d instr
              else match_instr Mapping.amoand_w instr,
        )
        ∷ (
          8,
          if funct3 instr == 3
              then match_instr Mapping.amoor_d instr
              else match_instr Mapping.amoor_w instr,
        )
        ∷ (
          16,
          if funct3 instr == 3
              then match_instr Mapping.amomin_d instr
              else match_instr Mapping.amomin_w instr,
        )
        ∷ (
          20,
          if funct3 instr == 3
              then match_instr Mapping.amomax_d instr
              else match_instr Mapping.amomax_w instr,
        )
        ∷ (
          24,
          if funct3 instr == 3
              then match_instr Mapping.amominu_d instr
              else match_instr Mapping.amominu_w instr,
        )
        ∷ (
          28,
          if funct3 instr == 3
              then match_instr Mapping.amomaxu_d instr
              else match_instr Mapping.amomaxu_w instr,
        )
        ∷ [])
      Mapping.undef
