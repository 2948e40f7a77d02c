-- ===== src/Core/Mmu/Tlb.antt =====
-- The translation buffer, `translate_virtual_to_physical_addr` of vp/src/core/common/mmu.h: what it gives for an
-- address that has been translated.
use dse_vp.Base.{
  ℕ, ◌+◌, ◌*◌, ◌/◌, ◌%◌, ◌^◌, ◌<◌, ◌≡◌, inl, inr, refl, sym, ap, ◌||◌, ap₂, ◌∙◌, Bool, true, false,
  not, not32, bit_and, bit_or, ◌==◌, ==_self, arith, and_low, and_field, or_low, Bool-cases,
}
use dse_vp.Core.Mmu.{
  PteMemory, Access, Setting, Mmu, Translation, not64, same_access, put, walk, effective_mode,
  translate_virtual_to_physical_addr,
}
use dse_vp.Core.Mmu.Walk.{walk-IsGranted, leaf_address-offset}

-- The page of an address that the buffer keeps, and the offset that is added again.
pub rejoin :
    (paddr vaddr w page : ℕ)
    → page < 2 ^ 52
    → paddr ≡ page * 2 ^ 12 + vaddr % 2 ^ 12
    → bit_or (bit_and paddr (not64 4095)) (bit_and w 4095) ≡ page * 2 ^ 12 + w % 2 ^ 12
rejoin paddr vaddr w page h e =
    let high : bit_and paddr (not64 4095) ≡ page * 2 ^ 12 = omega (arith, and_field 52 12 paddr) in
    ap₂ bit_or high (and_low 12 w) ∙ or_low 12 page (w % 2 ^ 12) (omega arith)

-- The same with the mask of 32 bits that the buffer is filled with.
pub rejoin-truncated :
    (paddr vaddr w page : ℕ)
    → page < 2 ^ 52
    → paddr ≡ page * 2 ^ 12 + vaddr % 2 ^ 12
    → bit_or (bit_and paddr (not32 4095)) (bit_and w 4095) ≡ (page * 2 ^ 12 + w % 2 ^ 12) % 2 ^ 32
rejoin-truncated paddr vaddr w page h e =
    let high : bit_and paddr (not32 4095) ≡ page % 2 ^ 20 * 2 ^ 12 =
      omega (arith, and_field 20 12 paddr) in
    ap₂ bit_or high (and_low 12 w)
    ∙ or_low 12 (page % 2 ^ 20) (w % 2 ^ 12) (omega arith)
    ∙ omega arith

same_access_refl : (type : Access) → same_access type type ≡ true
same_access_refl Access.fetch = refl
same_access_refl Access.load = refl
same_access_refl Access.store = refl

put_self :
    (f : ℕ → Access → ℕ → ℕ) (mode : ℕ) (type : Access) (idx v : ℕ)
    → put f mode type idx v mode type idx ≡ v
put_self f mode type idx v = rw (==_self mode, same_access_refl type, ==_self idx) refl

module _ {M : Type 0} (mem : PteMemory M) (s : Setting) (vaddr : ℕ) (type : Access) where
  -- The address is translated by the page tables.
  pub record IsPaged : Type 0 where
    pub paged : (s.satp_mode == 0) ≡ false
    pub lower : (effective_mode mem s type == 3) ≡ false
    pub known : not (effective_mode mem s type == 0 || effective_mode mem s type == 1) ≡ false

  abbrev pub hits : Mmu M → Bool
  hits u = u.tlb_vpn (effective_mode mem s type) type (vaddr / 2 ^ 12 % 256) == vaddr / 2 ^ 12

  -- The address that the buffer gives.
  abbrev pub joined : Mmu M → ℕ
  joined u =
      bit_or (u.tlb_ppn (effective_mode mem s type) type (vaddr / 2 ^ 12 % 256))
        (bit_and vaddr 4095)

  abbrev pub filled : ℕ → M → Mmu M → Mmu M
  filled paddr m u =
      let mode = effective_mode mem s type in
      let idx = vaddr / 2 ^ 12 % 256 in
      record u {
        memory = m;
        tlb_ppn = put u.tlb_ppn mode type idx (bit_and paddr (not32 4095));
        tlb_vpn = put u.tlb_vpn mode type idx (vaddr / 2 ^ 12);
      }

  -- The ways to an address: as it is, from the buffer, or by a walk.
  pub data Way (u : Mmu M) (paddr : ℕ) (v : Mmu M) : Type 0 where
    direct :
        (s.satp_mode == 0 || effective_mode mem s type == 3) ≡ true
        → paddr ≡ vaddr
        → v ≡ u
        → Way u paddr v
    hit : IsPaged → hits u ≡ true → paddr ≡ joined u → v ≡ u → Way u paddr v
    walked :
        (m : M)
        → IsPaged
        → hits u ≡ false
        → walk mem s vaddr type (effective_mode mem s type) u.memory
          ≡ Translation.translated paddr m
        → v ≡ filled paddr m u
        → Way u paddr v

  pub translate-hit :
      (u : Mmu M)
      → IsPaged
      → hits u ≡ true
      → translate_virtual_to_physical_addr mem s vaddr type u ≡ Translation.translated (joined u) u
  unfolding translate_virtual_to_physical_addr
  translate-hit u p found = rw (p.paged, p.lower, p.known, found) refl

  abbrev after : Mmu M → Translation M → Translation (Mmu M)
  after u (Translation.translated p m) = Translation.translated p (filled p m u)
  after u Translation.page_fault = Translation.page_fault
  after u Translation.failed = Translation.failed

  translate-miss :
      (u : Mmu M)
      → IsPaged
      → hits u ≡ false
      → (w : Translation M) → walk mem s vaddr type (effective_mode mem s type) u.memory ≡ w
      → translate_virtual_to_physical_addr mem s vaddr type u ≡ after u w
  unfolding translate_virtual_to_physical_addr
  translate-miss u p missed (Translation.translated a m) f =
      rw (p.paged, p.lower, p.known, missed, f) refl
  translate-miss u p missed Translation.page_fault f =
      rw (p.paged, p.lower, p.known, missed, f) refl
  translate-miss u p missed Translation.failed f = rw (p.paged, p.lower, p.known, missed, f) refl

  after-Way :
      (u v : Mmu M) (paddr : ℕ) (w : Translation M)
      → IsPaged
      → hits u ≡ false
      → walk mem s vaddr type (effective_mode mem s type) u.memory ≡ w
      → after u w ≡ Translation.translated paddr v
      → Way u paddr v
  after-Way u v paddr (Translation.translated p m) h missed f e =
      let same : v ≡ filled p m u = cc in
      let address : p ≡ paddr = cc in
      walked m h missed (f ∙ ap (λ a. Translation.translated a m) address)
        (same ∙ ap (λ a. filled a m u) address)
  after-Way u v paddr Translation.page_fault h missed f e = absurd cc
  after-Way u v paddr Translation.failed h missed f e = absurd cc

  translate-direct :
      (u : Mmu M)
      → (s.satp_mode == 0 || effective_mode mem s type == 3) ≡ true
      → translate_virtual_to_physical_addr mem s vaddr type u ≡ Translation.translated vaddr u
  unfolding translate_virtual_to_physical_addr
  translate-direct u d = elim (Bool-cases (s.satp_mode == 0)) [
    | inl bare ↦ rw bare refl
    | inr paged ↦
        let machine : (effective_mode mem s type == 3) ≡ true =
          sym (ap (λ b. b || effective_mode mem s type == 3) paged) ∙ d in
        rw (paged, machine) refl
  ]

  direct-Way :
      (u v : Mmu M) (paddr : ℕ)
      → (s.satp_mode == 0 || effective_mode mem s type == 3) ≡ true
      → translate_virtual_to_physical_addr mem s vaddr type u ≡ Translation.translated paddr v
      → Way u paddr v
  direct-Way u v paddr d e =
      let both : Translation.translated vaddr u ≡ Translation.translated paddr v =
        sym (translate-direct u d) ∙ e in
      let address : paddr ≡ vaddr = cc both in let same : v ≡ u = cc both in direct d address same

  paged-Way :
      (u v : Mmu M) (paddr : ℕ)
      → IsPaged
      → translate_virtual_to_physical_addr mem s vaddr type u ≡ Translation.translated paddr v
      → Way u paddr v
  paged-Way u v paddr p e = elim (Bool-cases (hits u)) [
    | inl found ↦
        let both : Translation.translated (joined u) u ≡ Translation.translated paddr v =
          sym (translate-hit u p found) ∙ e in
        let address : paddr ≡ joined u = cc both in
        let same : v ≡ u = cc both in hit p found address same
    | inr missed ↦
        let w = walk mem s vaddr type (effective_mode mem s type) u.memory in
        after-Way u v paddr w p missed refl (sym (translate-miss u p missed w refl) ∙ e)
  ]

  pub translate-Way :
      (u v : Mmu M) (paddr : ℕ)
      → translate_virtual_to_physical_addr mem s vaddr type u ≡ Translation.translated paddr v
      → Way u paddr v
  unfolding translate_virtual_to_physical_addr
  translate-Way u v paddr e = elim (Bool-cases (s.satp_mode == 0)) [
    | inl bare ↦ direct-Way u v paddr (rw bare refl) e
    | inr paged ↦ elim (Bool-cases (effective_mode mem s type == 3)) [
      | inl machine ↦ direct-Way u v paddr (rw (paged, machine) refl) e
      | inr lower ↦
          elim (Bool-cases
            (not (effective_mode mem s type == 0 || effective_mode mem s type == 1))) [
              | inl unknown ↦
                  let q : translate_virtual_to_physical_addr mem s vaddr type u
                      ≡ Translation.failed =
                    rw (paged, lower, unknown) refl in
                  let both : Translation.failed ≡ Translation.translated paddr v = sym q ∙ e in
                  absurd cc
              | inr known ↦
                  paged-Way u v paddr (record { paged = paged; lower = lower; known = known }) e
            ]
    ]
  ]

  -- What a walk filled in gives the address that was walked to, modulo 2 ^ 32.
  pub filled-joined :
      (u : Mmu M) (paddr : ℕ) (m : M)
      → walk mem s vaddr type (effective_mode mem s type) u.memory ≡ Translation.translated paddr m
      → (hits (filled paddr m u) ≡ true) × (joined (filled paddr m u) ≡ paddr % 2 ^ 32)
  filled-joined u paddr m f =
      let (vm, _, granted) =
        walk-IsGranted mem s vaddr type (effective_mode mem s type) u.memory m paddr f in
      let (page, fits, offset) = leaf_address-offset mem s vaddr type vm granted.level _ in
      let here : paddr ≡ page * 2 ^ 12 + vaddr % 2 ^ 12 = granted.address ∙ offset vaddr refl in
      let back =
        rejoin-truncated paddr vaddr vaddr page fits here ∙ ap (λ n. n % 2 ^ 32) (sym here) in
      (
        ap (λ n. n == vaddr / 2 ^ 12)
              (put_self u.tlb_vpn (effective_mode mem s type) type (vaddr / 2 ^ 12 % 256)
                (vaddr / 2 ^ 12))
            ∙ ==_self (vaddr / 2 ^ 12),
        ap (λ n. bit_or n (bit_and vaddr 4095))
              (put_self u.tlb_ppn (effective_mode mem s type) type (vaddr / 2 ^ 12 % 256)
                (bit_and paddr (not32 4095)))
            ∙ back,
      )

  -- An address of 32 bits that the page tables gave is in the buffer.
  pub translate-held :
      (u v : Mmu M) (paddr : ℕ)
      → IsPaged
      → paddr < 2 ^ 32
      → translate_virtual_to_physical_addr mem s vaddr type u ≡ Translation.translated paddr v
      → (hits v ≡ true) × (joined v ≡ paddr)
  translate-held u v paddr p small e = elim (translate-Way u v paddr e) [
    | direct d a same ↦ absurd (ground (arith, p.paged, p.lower))
    | hit q found a same ↦ (ap hits same ∙ found, ap joined same ∙ sym a)
    | walked m q miss f same ↦
        let (found, address) = filled-joined u paddr m f in
        (ap hits same ∙ found, ap joined same ∙ address ∙ omega arith)
  ]

  -- Where an address has been translated, by a walk or not, to one below 2 ^ 32, translating it again for
  -- the same kind of access gives the same address and changes nothing, the page tables included.
  pub translate-again :
      (u v : Mmu M) (paddr : ℕ)
      → paddr < 2 ^ 32
      → translate_virtual_to_physical_addr mem s vaddr type u ≡ Translation.translated paddr v
      → translate_virtual_to_physical_addr mem s vaddr type v ≡ Translation.translated paddr v
  translate-again u v paddr small e =
      let again : IsPaged
          → translate_virtual_to_physical_addr mem s vaddr type v ≡ Translation.translated paddr v =
        λ p.
          let (found, address) = translate-held u v paddr p small e in
          translate-hit v p found ∙ ap (λ a. Translation.translated a v) address in
      elim (translate-Way u v paddr e) [
        | direct d a same ↦ translate-direct v d ∙ ap (λ x. Translation.translated x v) (sym a)
        | hit p found a same ↦ again p
        | walked m p miss f same ↦ again p
      ]

  -- Where the page tables translate an address that the buffer does not have, to any physical address: the
  -- translation gives that address, and translating again, by the buffer, gives it modulo 2 ^ 32.
  pub translate-truncated :
      (u : Mmu M) (paddr : ℕ) (m : M)
      → IsPaged
      → hits u ≡ false
      → walk mem s vaddr type (effective_mode mem s type) u.memory ≡ Translation.translated paddr m
      → (v : Mmu M) × (translate_virtual_to_physical_addr mem s vaddr type u
          ≡ Translation.translated paddr v)
        × (translate_virtual_to_physical_addr mem s vaddr type v
            ≡ Translation.translated (paddr % 2 ^ 32) v)
  translate-truncated u paddr m p missed f =
      let v = filled paddr m u in
      let (found, address) = filled-joined u paddr m f in
      (
        v,
        translate-miss u p missed (Translation.translated paddr m) f,
        translate-hit v p found ∙ ap (λ a. Translation.translated a v) address,
      )
