-- ===== src/Core/Exec/Interface/Tests.antt =====
-- The processor with a memory behind the bus.
use dse_vp.Base.{ℕ, ◌%◌, ◌^◌, ◌≡◌, refl, [], u32, if◌then◌else◌, ◌==◌, arith}
use dse_vp.Core.Instr.Fields.{sign_extend}
use dse_vp.Platform.Bus.{transport}
use dse_vp.Platform.Bus.Routing.{mapped, transport-IsMemory}
use dse_vp.Platform.Bus.Tests.{whole, whole-IsPart, ports, decode-ports}
use dse_vp.Core.Opcode.{Mapping}
use dse_vp.Core.Instr.{rd, rs1, rs2, s_imm, i_imm}
use dse_vp.Core.Exec.{Iss, done}
use dse_vp.Core.Exec.Step.{store_size, load_kind}
use dse_vp.Core.Exec.Step.Run.{exec_op}
use dse_vp.Core.Exec.Interface.{direct_bus}
use dse_vp.Core.Exec.Interface.Access.{store-load}
use dse_vp.Core.Exec.Tests.{start}

-- SH x1, 64(x0) and LH x2, 64(x0).
abbrev stores : ℕ
stores = 0x04101023

abbrev loads : ℕ
loads = 0x04001103

abbrev before : Iss (ℕ → ℕ)
before = record start { regs = λ k. if k == 1 then 0xFFFF8001 else 0 }

store-load_example :
    (t : Iss (ℕ → ℕ)) × (u : Iss (ℕ → ℕ)) × (exec_op
        (direct_bus (transport (ports 0)) [] (λ m. (0, m)))
        Mapping.sh
        stores
        before
      ≡ done tt t)
    × (exec_op (direct_bus (transport (ports 0)) [] (λ m. (0, m))) Mapping.lh loads t ≡ done tt u)
    × (u.regs (rd loads) ≡ u32 (sign_extend 16 (before.regs (rs2 stores) % 2 ^ 16)))
unfolding store_size load_kind rs1 s_imm i_imm
store-load_example =
    store-load (transport (ports 0)) (mapped whole 0) 0 4096
      (transport-IsMemory whole whole-IsPart 4096 (ports 0) 0 4095 (omega arith) (decode-ports 0))
      (λ m. (0, m)) Mapping.sh Mapping.lh stores loads 2 (sign_extend 16) before refl refl refl refl
      (omega arith) (omega arith) (omega arith)
