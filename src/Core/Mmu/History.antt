-- ===== src/Core/Mmu/History.antt =====
-- What the translation buffer remembers, from a flush on.
use dse_vp.Base.{
  ℕ, ◌/◌, ◌^◌, ◌<◌, ◌≡◌, refl, sym, ap, ◌∙◌, subst, inl, inr, Bool, true, ◌&&◌, some, List, [], ◌∷◌,
  bit_and, bit_or, not32, ◌%◌, ◌*◌, ◌+◌, ◌==◌, if◌then◌else◌, Bool-cases, arith,
}
use mathlib.Core.List.{Mem, mem-cons_self, mem-cons_of_mem}
use dse_vp.Core.Mmu.{
  PteMemory, Access, Setting, VmInfo, Mmu, Translation, not64, same_access, decode_vm_info,
  effective_mode, flush_tlb, walk, translate_virtual_to_physical_addr,
}
use dse_vp.Core.Mmu.Walk.{IsGranted, walk-IsGranted, leaf_address-offset}
use dse_vp.Core.Mmu.Tlb.{
  IsPaged, hits, rejoin, rejoin-truncated, filled, direct, hit, walked, translate-Way,
  translate-hit, translate-held,
}
use dse_vp.Core.Mmu.Page.{page-IsGranted}

-- The buffer does not know `sum` and `mxr`: an address below 2 ^ 32 that the page tables gave under one value
-- of them is translated under any other one, in the same way.
pub translate-any_flags :
    {M : Type 0} (mem : PteMemory M) (s : Setting) (vaddr : ℕ) (type : Access) (u v : Mmu M)
    (paddr : ℕ) (sum mxr : Bool)
    → IsPaged mem s vaddr type
    → paddr < 2 ^ 32
    → translate_virtual_to_physical_addr mem s vaddr type u ≡ Translation.translated paddr v
    → translate_virtual_to_physical_addr mem (record s { sum = sum; mxr = mxr }) vaddr type v
      ≡ Translation.translated paddr v
unfolding effective_mode
translate-any_flags mem s vaddr type u v paddr sum mxr p small e =
    let s' = record s { sum = sum; mxr = mxr } in
    let (found, address) = translate-held mem s vaddr type u v paddr p small e in
    translate-hit mem s' vaddr type v (record { paged = p.paged; lower = p.lower; known = p.known })
      found
    ∙ ap (λ a. Translation.translated a v) address

same_access-eq : (type t : Access) → same_access type t ≡ true → type ≡ t
same_access-eq Access.fetch Access.fetch e = refl
same_access-eq Access.load Access.load e = refl
same_access-eq Access.store Access.store e = refl
same_access-eq Access.fetch Access.load e = absurd cc
same_access-eq Access.fetch Access.store e = absurd cc
same_access-eq Access.load Access.fetch e = absurd cc
same_access-eq Access.load Access.store e = absurd cc
same_access-eq Access.store Access.fetch e = absurd cc
same_access-eq Access.store Access.load e = absurd cc

module _ {M : Type 0} (mem : PteMemory M) where
  -- The states since the buffer was flushed, with the settings and memories that addresses were
  -- translated with, the last one first. Others may write the memory at any time.
  pub data Since : List (Setting × M) → Mmu M → Type 0 where
    flushed : (u : Mmu M) → Since [] (flush_tlb u)
    written :
        {h : List (Setting × M)} {u : Mmu M} (m : M) → Since h u → Since h (record u { memory = m })
    used :
        {h : List (Setting × M)} {u v : Mmu M} (s : Setting) (vaddr paddr : ℕ) (type : Access)
        → Since h u
        → vaddr < 2 ^ 64
        → translate_virtual_to_physical_addr mem s vaddr type u ≡ Translation.translated paddr v
        → Since ((s, u.memory) ∷ h) v

  -- A walk at one of these times grants the address.
  pub record IsRemembered (h : List (Setting × M)) (mode : ℕ) (type : Access) (vaddr paddr : ℕ)
      : Type 0 where
    pub setting : Setting
    pub memory : M
    pub among : Mem (setting, memory) h
    pub vm : VmInfo
    pub decoded : decode_vm_info setting mode ≡ some vm
    pub granted : IsGranted mem setting vaddr vm memory (mode == 1) type paddr

  later :
      {h : List (Setting × M)} {mode vaddr paddr : ℕ} {type : Access} (x : Setting × M)
      → IsRemembered h mode type vaddr paddr
      → IsRemembered (x ∷ h) mode type vaddr paddr
  later x r = record {
    setting = r.setting;
    memory = r.memory;
    among = mem-cons_of_mem x r.among;
    vm = r.vm;
    decoded = r.decoded;
    granted = r.granted;
  }

  -- An address is one that is remembered, modulo 2 ^ 32.
  abbrev IsTruncated : List (Setting × M) → ℕ → Access → ℕ → ℕ → Type 0
  IsTruncated h mode type vaddr address =
      (full : ℕ) × IsRemembered h mode type vaddr full × (address ≡ full % 2 ^ 32)

  kept_later :
      {h : List (Setting × M)} {mode vaddr address : ℕ} {type : Access} (x : Setting × M)
      → IsTruncated h mode type vaddr address
      → IsTruncated (x ∷ h) mode type vaddr address
  kept_later x (full, r, e) = (full, later x r, e)

  -- Every entry is remembered.
  abbrev IsSound : List (Setting × M) → Mmu M → Type 0
  IsSound h u =
      (mode : ℕ) (type : Access) (vaddr : ℕ)
      → vaddr < 2 ^ 64
      → (u.tlb_vpn mode type (vaddr / 2 ^ 12 % 256) == vaddr / 2 ^ 12) ≡ true
      → IsTruncated h mode type vaddr
          (bit_or (u.tlb_ppn mode type (vaddr / 2 ^ 12 % 256)) (bit_and vaddr 4095))

  module _ (h : List (Setting × M)) (u : Mmu M) (s : Setting) (vaddr paddr : ℕ) (type : Access)
      (m : M)
      (f : walk mem s vaddr type (effective_mode mem s type) u.memory
        ≡ Translation.translated paddr m) where
    -- A walk is remembered for each address of the page.
    walked-IsTruncated :
        (w : ℕ)
        → w / 2 ^ 12 ≡ vaddr / 2 ^ 12
        → IsTruncated
            ((s, u.memory) ∷ h)
            (effective_mode mem s type)
            type
            w
            (bit_or (bit_and paddr (not32 4095)) (bit_and w 4095))
    walked-IsTruncated w page =
        let mode = effective_mode mem s type in
        let (vm, decoded, granted) = walk-IsGranted mem s vaddr type mode u.memory m paddr f in
        let (frame, fits, offset) = leaf_address-offset mem s vaddr type vm granted.level _ in
        let here : paddr ≡ frame * 2 ^ 12 + vaddr % 2 ^ 12 = granted.address ∙ offset vaddr refl in
        (
          bit_or (bit_and paddr (not64 4095)) (bit_and w 4095),
          record {
            setting = s;
            memory = u.memory;
            among = mem-cons_self;
            vm = vm;
            decoded = decoded;
            granted = page-IsGranted mem s vaddr w page vm u.memory (mode == 1) type paddr granted;
          },
          rejoin-truncated paddr vaddr w frame fits here
              ∙ ap (λ n. n % 2 ^ 32) (sym (rejoin paddr vaddr w frame fits here)),
        )

    filled-IsSound : IsSound h u → IsSound ((s, u.memory) ∷ h) (filled mem s vaddr type paddr m u)
    filled-IsSound sound mode' type' w small found =
        let mode = effective_mode mem s type in
        let new = bit_and paddr (not32 4095) in
        let old = u.tlb_ppn mode' type' (w / 2 ^ 12 % 256) in
        let vpn = u.tlb_vpn mode' type' (w / 2 ^ 12 % 256) in
        let here =
          mode' == mode && (same_access type type' && w / 2 ^ 12 % 256 == vaddr / 2 ^ 12 % 256) in
        let Remembered : ℕ → Type 0 =
          λ n. IsTruncated ((s, u.memory) ∷ h) mode' type' w (bit_or n (bit_and w 4095)) in
        elim (Bool-cases here) [
          | inr e ↦
              let kept : (vpn == w / 2 ^ 12) ≡ true =
                ap (λ b. (if b then vaddr / 2 ^ 12 else vpn) == w / 2 ^ 12) (sym e) ∙ found in
              subst Remembered (ap (λ b. if b then new else old) (sym e))
                (kept_later (s, u.memory) (sound mode' type' w small kept))
          | inl e ↦
              let walked_page : (vaddr / 2 ^ 12 == w / 2 ^ 12) ≡ true =
                ap (λ b. (if b then vaddr / 2 ^ 12 else vpn) == w / 2 ^ 12) (sym e) ∙ found in
              let same_mode : mode ≡ mode' = ground arith in
              let kind : same_access type type' ≡ true = ground arith in
              subst Remembered (ap (λ b. if b then new else old) (sym e)) (
                subst (λ t. IsTruncated ((s, u.memory) ∷ h) mode' t w (bit_or new (bit_and w 4095)))
                  (same_access-eq type type' kind)
                  (subst
                    (λ n. IsTruncated ((s, u.memory) ∷ h) n type w (bit_or new (bit_and w 4095)))
                    same_mode (walked-IsTruncated w (ground arith))))
        ]

  Since-IsSound : {h : List (Setting × M)} {u : Mmu M} → Since h u → IsSound h u
  unfolding flush_tlb
  Since-IsSound (flushed u) = λ mode type vaddr small found. absurd (ground arith)
  Since-IsSound (written m r) = Since-IsSound r
  Since-IsSound (used {h} {u} {v} s vaddr paddr type r small e) =
      elim (translate-Way mem s vaddr type u v paddr e) [
        | direct d a same ↦
            subst (IsSound ((s, u.memory) ∷ h)) (sym same)
              (λ n t w l g. kept_later (s, u.memory) (Since-IsSound r n t w l g))
        | hit p g a same ↦
            subst (IsSound ((s, u.memory) ∷ h)) (sym same)
              (λ n t w l k. kept_later (s, u.memory) (Since-IsSound r n t w l k))
        | walked m p missed f same ↦
            subst (IsSound ((s, u.memory) ∷ h)) (sym same)
              (filled-IsSound h u s vaddr paddr type m f (Since-IsSound r))
      ]

  -- Since a flush, whatever is written to memory and to the registers in between: where the page tables give
  -- a physical address for a virtual one of 64 bits, a walk of the tables as they were at a translation
  -- since the flush, or as they are, has granted one for the same mode, kind of access and page, with the
  -- flags that the processor had then. The address is that one where the buffer did not have it, and that
  -- one modulo 2 ^ 32 where it did.
  pub translate-IsRemembered :
      {h : List (Setting × M)} {u : Mmu M} (s : Setting) (vaddr paddr : ℕ) (type : Access)
      (v : Mmu M)
      → Since h u
      → vaddr < 2 ^ 64
      → IsPaged mem s vaddr type
      → translate_virtual_to_physical_addr mem s vaddr type u ≡ Translation.translated paddr v
      → (full : ℕ) × IsRemembered ((s, u.memory) ∷ h) (effective_mode mem s type) type vaddr full
        × (paddr ≡ (if hits mem s vaddr type u then full % 2 ^ 32 else full))
  translate-IsRemembered {h} {u} s vaddr paddr type v r small p e =
      let mode = effective_mode mem s type in
      elim (translate-Way mem s vaddr type u v paddr e) [
        | direct d a same ↦ absurd (ground (arith, p.paged, p.lower))
        | hit q found a same ↦
            let (full, kept, cut) = Since-IsSound r mode type vaddr small found in
            (
              full,
              later (s, u.memory) kept,
              a ∙ cut ∙ ap (λ b. if b then full % 2 ^ 32 else full) (sym found),
            )
        | walked m q missed f same ↦
            let (vm, decoded, granted) = walk-IsGranted mem s vaddr type mode u.memory m paddr f in
            (
              paddr,
              record {
                setting = s;
                memory = u.memory;
                among = mem-cons_self;
                vm = vm;
                decoded = decoded;
                granted = granted;
              },
              ap (λ b. if b then paddr % 2 ^ 32 else paddr) (sym missed),
            )
      ]
