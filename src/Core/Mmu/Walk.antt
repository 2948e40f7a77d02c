-- ===== src/Core/Mmu/Walk.antt =====
-- What a walk of the page tables grants, against the tables of the privileged specification.
use dse_vp.Base.{
  ℕ, zero, suc, ◌+◌, ◌-◌, ◌*◌, ◌/◌, ◌%◌, ◌^◌, ◌<◌, ◌≤◌, ◌≡◌, ◌≢◌, ◌⊎◌, refl, sym, ap, ap₂, ◌∙◌,
  Bool, true, false, not, ◌&&◌, ◌||◌, bit_and, bit_or, if◌then◌else◌, ◌==◌, arith, and_low,
  and_field, or_low, pow-add, Option, none, some, inl, inr,
}
use native.Mathlib.Nat.{
  one-le-pow, mod-add-div, mod-lt, mod-eq_of_lt, mul_comm, mul-sub, div-lt_iff_lt-mul,
}
use dse_vp.Core.Mmu.{
  PteMemory, Access, Setting, VmInfo, Translation, u64, not64, pte_flag, decode_vm_info,
  leaf_address, visit_leaf, walk_from, walk, check_vaddr_extension,
}

-- The accesses that an entry's flags allow.
abbrev pub allows : Setting → Bool → Access → ℕ → Bool
allows s s_mode Access.fetch pte =
    pte_flag pte 3 && (if s_mode then not (pte_flag pte 4) else pte_flag pte 4)
allows s s_mode Access.load pte =
    (pte_flag pte 1 || (s.mxr && pte_flag pte 3))
    && (if s_mode then not (pte_flag pte 4) || s.sum else pte_flag pte 4)
allows s s_mode Access.store pte =
    pte_flag pte 1
    && (pte_flag pte 2 && (if s_mode then not (pte_flag pte 4) || s.sum else pte_flag pte 4))

module _ {M : Type 0} (mem : PteMemory M) (s : Setting) (vaddr : ℕ) where
  abbrev pub entry_address : VmInfo → ℕ → ℕ → ℕ
  entry_address vm i base =
      u64 (base + bit_and (vaddr / 2 ^ (12 + i * vm.idxbits)) (2 ^ vm.idxbits - 1) * vm.ptesize)

  -- The entry for the address in a table of level `i`.
  abbrev pub entry : VmInfo → M → ℕ → ℕ → ℕ
  entry vm m i base =
      if vm.ptesize == 4
      then mem.mmu_load_pte32 (entry_address vm i base) m
      else mem.mmu_load_pte64 (entry_address vm i base) m

  -- The tables on the way from the root, with the number of levels that are left: an entry leads to
  -- the next table if it is valid and has neither of the flags R, W and X.
  pub data IsTable (vm : VmInfo) (m : M) : ℕ → ℕ → Type 0 where
    root : IsTable vm m vm.levels vm.ptbase
    next :
        (i base : ℕ)
        → IsTable vm m (suc i) base
        → pte_flag (entry vm m i base) 0 ≡ true
        → pte_flag (entry vm m i base) 1 ≡ false
        → pte_flag (entry vm m i base) 2 ≡ false
        → pte_flag (entry vm m i base) 3 ≡ false
        → IsTable vm m i (u64 (entry vm m i base / 2 ^ 10 * 2 ^ 12))

  -- A valid leaf for level `i` that allows the access, and the address that it gives.
  pub record IsGranted (vm : VmInfo) (m : M) (s_mode : Bool) (type : Access) (paddr : ℕ)
      : Type 0 where
    pub level : ℕ
    pub base : ℕ
    pub table : IsTable vm m (suc level) base
    pub valid : pte_flag (entry vm m level base) 0 ≡ true
    pub allowed : allows s s_mode type (entry vm m level base) ≡ true
    pub aligned : entry vm m level base / 2 ^ 10 % 2 ^ (level * vm.idxbits) ≡ 0
    pub address : paddr ≡ leaf_address mem s vaddr type vm level (entry vm m level base / 2 ^ 10)

  record IsAllowed (vm : VmInfo) (s_mode : Bool) (type : Access) (i pte paddr : ℕ) : Type 0 where
    flags : allows s s_mode type pte ≡ true
    whole : pte / 2 ^ 10 % 2 ^ (i * vm.idxbits) ≡ 0
    result : paddr ≡ leaf_address mem s vaddr type vm i (pte / 2 ^ 10)

  visit_leaf-IsAllowed :
      (type : Access) (vm : VmInfo) (s_mode : Bool) (i at pte : ℕ) (m n : M) (paddr : ℕ)
      → visit_leaf mem s vaddr type vm s_mode i at pte m ≡ Translation.translated paddr n
      → IsAllowed vm s_mode type i pte paddr
  unfolding visit_leaf
  visit_leaf-IsAllowed Access.fetch vm s_mode i at pte m n paddr e = record {
    flags = ground arith;
    whole = ground (arith, and_low (i * vm.idxbits) (pte / 2 ^ 10));
    result = ground arith;
  }
  visit_leaf-IsAllowed Access.load vm s_mode i at pte m n paddr e = record {
    flags = ground arith;
    whole = ground (arith, and_low (i * vm.idxbits) (pte / 2 ^ 10));
    result = ground arith;
  }
  visit_leaf-IsAllowed Access.store vm s_mode i at pte m n paddr e = record {
    flags = ground arith;
    whole = ground (arith, and_low (i * vm.idxbits) (pte / 2 ^ 10));
    result = ground arith;
  }

  -- Which of the three branches of the loop was taken.
  taken :
      (v r w x : Bool) (rest leaf t : Translation M)
      → (if not v || (not r && w)
          then Translation.page_fault
          else if not r && not x
          then rest
          else leaf)
        ≡ t
      → t ≢ Translation.page_fault
      → (v ≡ true) × ((rest ≡ t) × (r ≡ false) × (w ≡ false) × (x ≡ false) ⊎ (leaf ≡ t))
  taken false r w x rest leaf t e ne = absurd (ne (sym e))
  taken true true w x rest leaf t e ne = (refl, inr e)
  taken true false true x rest leaf t e ne = absurd (ne (sym e))
  taken true false false true rest leaf t e ne = (refl, inr e)
  taken true false false false rest leaf t e ne = (refl, inl (e, refl, refl, refl))

  walk_from-IsGranted :
      (type : Access) (vm : VmInfo) (s_mode : Bool) (left base : ℕ) (m n : M) (paddr : ℕ)
      → IsTable vm m left base
      → walk_from mem s vaddr type vm s_mode left base m ≡ Translation.translated paddr n
      → IsGranted vm m s_mode type paddr
  unfolding walk_from
  walk_from-IsGranted type vm s_mode zero base m n paddr h e = absurd cc
  walk_from-IsGranted type vm s_mode (suc i) base m n paddr h e =
      let pte : ℕ = entry vm m i base in
      let below : ℕ = u64 (pte / 2 ^ 10 * 2 ^ 12) in
      let (v, branch) =
        taken (pte_flag pte 0) (pte_flag pte 1) (pte_flag pte 2) (pte_flag pte 3)
          (walk_from mem s vaddr type vm s_mode i below m)
          (visit_leaf mem s vaddr type vm s_mode i (entry_address vm i base) pte m)
          (Translation.translated paddr n) e (λ x. cc) in
      elim branch [
        | inl (deeper, r, w, x) ↦
            walk_from-IsGranted type vm s_mode i below m n paddr (IsTable.next i base h v r w x)
              deeper
        | inr leaf ↦
            let q =
              visit_leaf-IsAllowed type vm s_mode i (entry_address vm i base) pte m n paddr leaf in
            record {
              level = i;
              base = base;
              table = h;
              valid = v;
              allowed = q.flags;
              aligned = q.whole;
              address = q.result;
            }
      ]

  from_root :
      (type : Access) (vm : VmInfo) (s_mode checked : Bool) (m n : M) (paddr : ℕ)
      → walk_from mem s vaddr type vm s_mode (if checked then vm.levels else 0) vm.ptbase m
        ≡ Translation.translated paddr n
      → IsGranted vm m s_mode type paddr
  unfolding walk_from
  from_root type vm s_mode true m n paddr e =
      walk_from-IsGranted type vm s_mode vm.levels vm.ptbase m n paddr IsTable.root e
  from_root type vm s_mode false m n paddr e = absurd cc

  -- A walk that translates an address has found, on the way from the root that `satp` names, a valid
  -- leaf which allows the access in the mode and is aligned for its level, and the result is that
  -- leaf's address.
  pub walk-IsGranted :
      (type : Access) (mode : ℕ) (m n : M) (paddr : ℕ)
      → walk mem s vaddr type mode m ≡ Translation.translated paddr n
      → (vm : VmInfo) × (decode_vm_info s mode ≡ some vm) × IsGranted vm m (mode == 1) type paddr
  unfolding walk
  walk-IsGranted type mode m n paddr e = start (decode_vm_info s mode) refl e
    where
      start :
          (o : Option VmInfo)
          → decode_vm_info s mode ≡ o
          → (elim o [
            | none ↦ Translation.failed
            | some vm ↦
                walk_from mem s vaddr type vm
                  (mode == 1)
                  (if check_vaddr_extension s vaddr vm then vm.levels else 0)
                  vm.ptbase
                  m
          ])
            ≡ Translation.translated paddr n
          → (vm : VmInfo) × (decode_vm_info s mode ≡ some vm)
            × IsGranted vm m (mode == 1) type paddr
      start none f e = absurd cc
      start (some vm) f e =
          (vm, f, from_root type vm (mode == 1) (check_vaddr_extension s vaddr vm) m n paddr e)

complement : (p q : ℕ) → p * q ≡ 2 ^ 64 → 1 ≤ p → not64 (p - 1) ≡ (q - 1) * p
complement p q e pos =
    let flip : p * (q - 1) ≡ (q - 1) * p = mul_comm p (q - 1) in
    let spread : p * (q - 1) ≡ p * q - p * 1 = mul-sub p q 1 in omega arith

quotient_below : (p q n : ℕ) → p * q ≡ 2 ^ 64 → 1 ≤ p → n < 2 ^ 64 → n / p < q
quotient_below p q n e pos h =
    let swap : q * p ≡ p * q = mul_comm q p in
    (div-lt_iff_lt-mul {k = p} {x = n} {y = q} pos).1 (omega arith)

-- The result of a walk is a page number below 2 ^ 52, which is that of every address in the same virtual
-- page, and the offset in the page.
pub leaf_address-offset :
    {M : Type 0} (mem : PteMemory M) (s : Setting) (vaddr : ℕ) (type : Access) (vm : VmInfo)
    (i ppn : ℕ)
    → (page : ℕ) × (page < 2 ^ 52)
      × ((w : ℕ)
          → w / 2 ^ 12 ≡ vaddr / 2 ^ 12
          → leaf_address mem s w type vm i ppn ≡ page * 2 ^ 12 + w % 2 ^ 12)
unfolding leaf_address
leaf_address-offset mem s vaddr type vm i ppn =
    let mask : ℕ = 2 ^ (i * vm.idxbits) - 1 in
    let page : ℕ → ℕ = λ vpn. bit_or (bit_and ppn (not64 mask)) (bit_and vpn mask) in
    let P : ℕ = page (vaddr / 2 ^ 12) in
    let wrapped : u64 (P * 2 ^ 12) ≡ P % 2 ^ 52 * 2 ^ 12 = omega arith in
    (
      P % 2 ^ 52,
      omega arith,
      λ w e.
          ap (λ vpn. bit_or (u64 (page vpn * 2 ^ 12)) (bit_and w 4095)) e
          ∙ ap₂ bit_or wrapped (and_low 12 w)
          ∙ or_low 12 (P % 2 ^ 52) (w % 2 ^ 12) (omega arith),
    )

-- A leaf below 2 ^ 64 that is aligned for its level, of at most 64 index bits, gives the address whose
-- page number, modulo 2 ^ 52, is the leaf's plus the low part of the virtual one, and whose offset in
-- the page is the virtual one.
leaf_address-eq :
    {M : Type 0} (mem : PteMemory M) (s : Setting) (vaddr : ℕ) (type : Access) (vm : VmInfo)
    (i ppn : ℕ)
    → i * vm.idxbits ≤ 64
    → ppn < 2 ^ 64
    → ppn % 2 ^ (i * vm.idxbits) ≡ 0
    → leaf_address mem s vaddr type vm i ppn
      ≡ (ppn + vaddr / 2 ^ 12 % 2 ^ (i * vm.idxbits)) % 2 ^ 52 * 2 ^ 12 + vaddr % 2 ^ 12
unfolding leaf_address
leaf_address-eq mem s vaddr type vm i ppn small fits aligned =
    let k = i * vm.idxbits in
    let P = 2 ^ k in
    let Q = 2 ^ (64 - k) in
    let PQ : P * Q ≡ 2 ^ 64 = sym (pow-add 2 k (64 - k)) ∙ ap (λ t. 2 ^ t) {y = 64} (omega arith) in
    let pos : 1 ≤ P = one-le-pow k 2 (omega arith) in
    let flipped : not64 (P - 1) ≡ (Q - 1) * P = complement P Q PQ pos in
    let whole : ppn ≡ ppn / P * P = omega (arith, mod-add-div ppn P) in
    let below : ppn / P < Q = quotient_below P Q ppn PQ pos fits in
    let high : bit_and ppn (not64 (P - 1)) ≡ ppn / P * P =
      ap (bit_and ppn) flipped
      ∙ and_field (64 - k) k ppn
      ∙ ap (λ (t : ℕ). t * P) (mod-eq_of_lt below) in
    let low : bit_and (vaddr / 2 ^ 12) (P - 1) ≡ vaddr / 2 ^ 12 % P = and_low k (vaddr / 2 ^ 12) in
    let joined : bit_or (bit_and ppn (not64 (P - 1))) (bit_and (vaddr / 2 ^ 12) (P - 1))
        ≡ ppn + vaddr / 2 ^ 12 % P =
      ap₂ bit_or high low
      ∙ or_low k (ppn / P) (vaddr / 2 ^ 12 % P) (mod-lt (vaddr / 2 ^ 12) pos)
      ∙ ap (λ (t : ℕ). t + vaddr / 2 ^ 12 % P) (sym whole) in
    let page : ℕ = bit_or (bit_and ppn (not64 (P - 1))) (bit_and (vaddr / 2 ^ 12) (P - 1)) in
    let offset : bit_and vaddr 4095 ≡ vaddr % 2 ^ 12 = and_low 12 vaddr in
    let wrapped : u64 (page * 2 ^ 12) ≡ page % 2 ^ 52 * 2 ^ 12 = omega arith in
    ap₂ bit_or wrapped offset
    ∙ or_low 12 (page % 2 ^ 52) (vaddr % 2 ^ 12) (omega arith)
    ∙ ap (λ (t : ℕ). t % 2 ^ 52 * 2 ^ 12 + vaddr % 2 ^ 12) joined
