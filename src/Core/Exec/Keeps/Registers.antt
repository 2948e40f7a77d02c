-- ===== src/Core/Exec/Keeps/Registers.antt =====
-- Reads and writes of the control and status registers keep the condition on the state.
use dse_vp.Base.{
  ℕ, ◌%◌, ◌≡◌, ◌≢◌, inl, inr, refl, Bool, false, none, some, arith, bit_and, not32, bit_and_lowest,
  bit_or_lowest, Bool-cases, Option-cases, ◌==◌,
}
use dse_vp.Core.Exec.{Iss, Bus}
use dse_vp.Core.Exec.Csr.{Slot, register_mapping, read_slot, write_slot}
use dse_vp.Core.Exec.Csr.Access.{
  require_isa, is_invalid_csr_access, validate_csr_counter_read_access_rights, get_csr_value,
  set_csr_value, write_whole, read_counter, read_csr, read_whole, read_mask, write_mask,
  write_fcsr_field, merge, pc_alignment_mask,
}
use dse_vp.Core.Exec.Keeps.{IsSound, Leaves, Keeps, Keeps-bind}

pub merge_even : (reg mask value : ℕ) → reg % 2 ≡ 0 → mask % 2 ≡ 0 → merge reg mask value % 2 ≡ 0
merge_even reg mask value h k = omega (
  arith,
  bit_or_lowest (bit_and reg (not32 mask)) (bit_and value mask),
  bit_and_lowest reg (not32 mask),
  bit_and_lowest value mask,
)

-- What a write of a register must not break.
Allowed : Slot → ℕ → Type 0
Allowed Slot.mepc v = v % 2 ≡ 0
Allowed Slot.sepc v = v % 2 ≡ 0
Allowed Slot.uepc v = v % 2 ≡ 0
Allowed Slot.misa v = v ≢ v
Allowed _ v = Unit

module _ {M : Type 0} where
  write_slot-IsSound :
      (slot : Slot) (v : ℕ) (s : Iss M) → Allowed slot v → IsSound s → IsSound (write_slot slot v s)
  unfolding write_slot Allowed
  write_slot-IsSound Slot.misa v s a p = absurd (a refl)
  write_slot-IsSound slot v s a p = ground arith

  pc_alignment_mask-even : (s : Iss M) → IsSound s → pc_alignment_mask s % 2 ≡ 0
  unfolding pc_alignment_mask
  pc_alignment_mask-even s p = rw p.even.has_c refl

  write_fcsr_field-Keeps : (addr value : ℕ) → Keeps {M = M} (write_fcsr_field addr value)
  unfolding write_fcsr_field Allowed
  write_fcsr_field-Keeps addr value = record {
    leaves = λ s p. write_slot-IsSound (Slot.word 3) _ s tt p;
  }

  pub require_isa-Keeps : (instr x : ℕ) → Keeps {M = M} (require_isa instr x)
  require_isa-Keeps instr x = record {
    leaves = λ s p. elim (Bool-cases (bit_and s.hart.csrs.misa x == 0)) [
      | inl e ↦ rw e p
      | inr e ↦ rw e p
    ];
  }

  pub is_invalid_csr_access-Keeps :
      (instr addr : ℕ) (w : Bool) → Keeps {M = M} (is_invalid_csr_access instr addr w)
  unfolding is_invalid_csr_access
  is_invalid_csr_access-Keeps instr addr w = record { leaves = λ s p. ground arith }

  validate-Keeps :
      (instr addr : ℕ) → Keeps {M = M} (validate_csr_counter_read_access_rights instr addr)
  unfolding validate_csr_counter_read_access_rights
  validate-Keeps instr addr = record { leaves = λ s p. ground arith }

module _ {M : Type 0} (bus : Bus M) (instr : ℕ) where
  read_counter-IsSound :
      (addr : ℕ) (s : Iss M) {v : ℕ} {t : Iss M}
      → read_counter bus instr addr s ≡ some (v, t)
      → IsSound s
      → IsSound t
  unfolding read_counter
  read_counter-IsSound addr s h p = ground arith

  read_whole-Keeps : (addr : ℕ) → Keeps (read_whole bus instr addr)
  unfolding read_whole
  read_whole-Keeps addr = record { leaves = λ s p. ground arith }

  read_csr-Keeps : (addr : ℕ) → Keeps (read_csr bus instr addr)
  unfolding read_csr
  read_csr-Keeps addr = record {
    leaves = λ s p. elim (Option-cases (read_counter bus instr addr s)) [
      | inr (vt, e) ↦ rw (read_csr, e) (read_counter-IsSound addr s e p)
      | inl e ↦ elim (Option-cases (read_mask addr)) [
        | inl f ↦ rw (read_csr, e, f) ((read_whole-Keeps addr).leaves s p)
        | inr (sm, f) ↦ rw (read_csr, e, f) p
      ]
    ];
  }

  pub get_csr_value-Keeps : (addr : ℕ) → Keeps (get_csr_value bus instr addr)
  unfolding get_csr_value
  get_csr_value-Keeps addr =
      Keeps-bind (validate_csr_counter_read_access_rights instr addr) _ (validate-Keeps instr addr)
        (λ _. read_csr-Keeps addr)

  write_mask-Allowed :
      (addr : ℕ) (s : Iss M) (slot : Slot) (mask value : ℕ)
      → IsSound s
      → write_mask (pc_alignment_mask s) addr ≡ some (slot, mask)
      → Allowed slot (merge (read_slot slot s) mask value)
  unfolding Allowed write_mask read_slot
  write_mask-Allowed addr s Slot.mepc mask value p h =
      merge_even _ mask value p.even.mepc_even (ground (arith, pc_alignment_mask-even s p))
  write_mask-Allowed addr s Slot.sepc mask value p h =
      merge_even _ mask value p.even.sepc_even (ground (arith, pc_alignment_mask-even s p))
  write_mask-Allowed addr s Slot.uepc mask value p h =
      merge_even _ mask value p.even.uepc_even (ground (arith, pc_alignment_mask-even s p))
  write_mask-Allowed addr s Slot.misa mask value p h = absurd (ground arith)
  write_mask-Allowed addr s slot mask value p h = tt

  register_mapping-Allowed :
      (m addr : ℕ) (slot : Slot) (value : ℕ)
      → (addr == 0x301) ≡ false
      → write_mask m addr ≡ none
      → register_mapping addr ≡ some slot
      → Allowed slot value
  unfolding Allowed write_mask register_mapping
  register_mapping-Allowed m addr Slot.mepc value q n h = absurd (ground arith)
  register_mapping-Allowed m addr Slot.sepc value q n h = absurd (ground arith)
  register_mapping-Allowed m addr Slot.uepc value q n h = absurd (ground arith)
  register_mapping-Allowed m addr Slot.misa value q n h = absurd (ground arith)
  register_mapping-Allowed m addr slot value q n h = tt

  write_whole-Keeps :
      (addr value : ℕ) (s : Iss M)
      → (addr == 0x301) ≡ false
      → write_mask (pc_alignment_mask s) addr ≡ none
      → IsSound s
      → Leaves IsSound (write_whole bus instr addr value s)
  unfolding write_whole
  write_whole-Keeps addr value s q n p =
      let field = (write_fcsr_field-Keeps addr value).leaves s p in
      elim (Option-cases (register_mapping addr)) [
        | inl e ↦ ground arith
        | inr (slot, e) ↦
            let whole =
              write_slot-IsSound slot value s
                (register_mapping-Allowed (pc_alignment_mask s) addr slot value q n e) p in
            ground arith
      ]

  pub set_csr_value-Keeps : (addr value : ℕ) → Keeps (set_csr_value bus instr addr value)
  unfolding set_csr_value
  set_csr_value-Keeps addr value = record {
    leaves = λ s p. elim (Option-cases (write_mask (pc_alignment_mask s) addr)) [
      | inr ((slot, mask), e) ↦
          let masked =
            write_slot-IsSound slot _ s (write_mask-Allowed addr s slot mask value p e) p in
          ground arith
      | inl e ↦ elim (Bool-cases (addr == 0x301)) [
        | inl q ↦ ground arith
        | inr q ↦ let whole = write_whole-Keeps addr value s q e p in ground arith
      ]
    ];
  }
