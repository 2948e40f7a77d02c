-- ===== src/Core/Exec/Csr/Rights.antt =====
-- Which accesses to the control and status registers are refused.
use dse_vp.Base.{
  ℕ, ◌<◌, ◌≡◌, ◌⊎◌, inl, inr, Bool, true, not, if◌then◌else◌, Option, none, some, arith, ◌==◌,
}
use dse_vp.Core.Opcode.{Mapping}
use dse_vp.Core.Instr.{rs1, csr, zimm}
use dse_vp.Core.Exec.{Iss, Bus, Exec, done, trapped, raise_trap}
use dse_vp.Core.Exec.Laws.{bind-done, bind-trapped}
use dse_vp.Core.Exec.Csr.Access.{is_invalid_csr_access, csr_prv, csr_readonly, illegal_instr}
use dse_vp.Core.Exec.Step.{exec_csr, csr_access}

-- Whether an instruction writes the register.
abbrev pub writes : Mapping → ℕ → Bool
writes Mapping.csrrs i = not (rs1 i == 0)
writes Mapping.csrrc i = not (rs1 i == 0)
writes Mapping.csrrsi i = not (zimm i == 0)
writes Mapping.csrrci i = not (zimm i == 0)
writes _ i = true

-- The register belongs to a higher privilege level, or is read-only and written.
abbrev pub Forbidden : {M : Type 0} → ℕ → Bool → Iss M → Type 0
Forbidden i w s = (s.hart.prv < csr_prv (csr i)) ⊎ ((csr_readonly (csr i) ≡ true) × (w ≡ true))

-- The instruction of a table raises an illegal instruction trap and changes nothing.
abbrev pub Refuses : {M : Type 0} → ℕ → Iss M → Option (Exec M (Unit {0})) → Type 0
Refuses i s none = Unit
Refuses i s (some m) = m s ≡ trapped (record { reason = illegal_instr; mtval = i }) s

module _ {M : Type 0} (bus : Bus M) (i : ℕ) (s : Iss M) where
  invalid :
      (w : Bool)
      → Forbidden i w s
      → (is_invalid_csr_access i (csr i) w s ≡ done true s)
        ⊎ (is_invalid_csr_access i (csr i) w s
            ≡ trapped (record { reason = illegal_instr; mtval = i }) s)
  unfolding is_invalid_csr_access
  invalid w f = ground arith

  access_refused :
      (w : Bool) (body : Exec M (Unit {0}))
      → Forbidden i w s
      → csr_access bus i w body s ≡ trapped (record { reason = illegal_instr; mtval = i }) s
  access_refused w body f =
      let check : Exec M Bool = is_invalid_csr_access i (csr i) w in
      let rest : Bool → Exec M (Unit {0}) =
        λ refused. if refused then raise_trap illegal_instr i else body in
      elim (invalid w f) [
        | inl e ↦ bind-done check rest s true s e
        | inr e ↦ bind-trapped check rest s _ s e
      ]

-- No instruction reads or writes a control and status register of a higher privilege level than the
-- processor runs at, and none writes a register whose address marks it read-only: each of the six
-- instructions raises an illegal instruction trap with the instruction word, and the state is as before.
pub exec_csr-refused :
    {M : Type 0} (bus : Bus M) (op : Mapping) (i : ℕ) (s : Iss M)
    → Forbidden i (writes op i) s
    → Refuses i s (exec_csr bus op i)
unfolding exec_csr
exec_csr-refused bus Mapping.csrrw i s f = access_refused bus i s true _ f
exec_csr-refused bus Mapping.csrrs i s f = access_refused bus i s _ _ f
exec_csr-refused bus Mapping.csrrc i s f = access_refused bus i s _ _ f
exec_csr-refused bus Mapping.csrrwi i s f = access_refused bus i s true _ f
exec_csr-refused bus Mapping.csrrsi i s f = access_refused bus i s _ _ f
exec_csr-refused bus Mapping.csrrci i s f = access_refused bus i s _ _ f
exec_csr-refused bus op i s f = tt
