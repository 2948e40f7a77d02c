-- ===== src/Core/Mmu/Page.antt =====
-- What a walk grants to one address of a page it grants to the others.
use dse_vp.Base.{
  ℕ, ◌+◌, ◌*◌, ◌/◌, ◌%◌, ◌^◌, ◌-◌, ◌≡◌, refl, sym, ap, ◌∙◌, subst, Bool, bit_and, bit_or, ◌==◌,
  if◌then◌else◌, pow-add,
}
use native.Mathlib.Nat.{div-div-eq-div-mul}
use dse_vp.Core.Mmu.{PteMemory, Access, Setting, VmInfo, not64, u64, pte_flag, leaf_address}
use dse_vp.Core.Mmu.Walk.{IsTable, IsGranted, entry, root, next, allows, leaf_address-offset}
use dse_vp.Core.Mmu.Tlb.{rejoin}

module _ {M : Type 0} (mem : PteMemory M) (s : Setting) (v w : ℕ) (page : w / 2 ^ 12 ≡ v / 2 ^ 12)
    (vm : VmInfo) (m : M) where
  same_bits : (k : ℕ) → v / 2 ^ (12 + k) ≡ w / 2 ^ (12 + k)
  same_bits k =
      let split : (a : ℕ) → a / 2 ^ (12 + k) ≡ a / 2 ^ 12 / 2 ^ k =
        λ a. ap (λ n. a / n) (pow-add 2 12 k) ∙ sym (div-div-eq-div-mul a (2 ^ 12) (2 ^ k)) in
      split v ∙ ap (λ n. n / 2 ^ k) (sym page) ∙ sym (split w)

  same_entry : (i base : ℕ) → entry mem s v vm m i base ≡ entry mem s w vm m i base
  same_entry i base =
      ap
        (λ n.
          let a = u64 (base + bit_and n (2 ^ vm.idxbits - 1) * vm.ptesize) in
          if vm.ptesize == 4 then mem.mmu_load_pte32 a m else mem.mmu_load_pte64 a m)
        (same_bits (i * vm.idxbits))

  page-IsTable : {i base : ℕ} → IsTable mem s v vm m i base → IsTable mem s w vm m i base
  page-IsTable root = root
  page-IsTable (next i base t a b c d) =
      let e = same_entry i base in
      let flag : (k : ℕ)
          → pte_flag (entry mem s w vm m i base) k ≡ pte_flag (entry mem s v vm m i base) k =
        λ k. ap (λ n. pte_flag n k) (sym e) in
      subst (λ x. IsTable mem s w vm m i (u64 (x / 2 ^ 10 * 2 ^ 12))) (sym e)
        (next i base (page-IsTable t) (flag 0 ∙ a) (flag 1 ∙ b) (flag 2 ∙ c) (flag 3 ∙ d))

  pub page-IsGranted :
      (s_mode : Bool) (type : Access) (paddr : ℕ)
      → IsGranted mem s v vm m s_mode type paddr
      → IsGranted mem s w vm m s_mode type (bit_or (bit_and paddr (not64 4095)) (bit_and w 4095))
  page-IsGranted s_mode type paddr g =
      let e = same_entry g.level g.base in
      let (frame, fits, offset) =
        leaf_address-offset mem s v type vm g.level (entry mem s v vm m g.level g.base / 2 ^ 10) in
      record {
        level = g.level;
        base = g.base;
        table = page-IsTable g.table;
        valid = ap (λ n. pte_flag n 0) (sym e) ∙ g.valid;
        allowed = ap (allows s s_mode type) (sym e) ∙ g.allowed;
        aligned = subst (λ n. n / 2 ^ 10 % 2 ^ (g.level * vm.idxbits) ≡ 0) e g.aligned;
        address =
            rejoin paddr v w frame fits (g.address ∙ offset v refl)
            ∙ sym (offset w page)
            ∙ ap (λ n. leaf_address mem s w type vm g.level (n / 2 ^ 10)) e;
      }
