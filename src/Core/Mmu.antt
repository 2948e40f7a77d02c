-- ===== src/Core/Mmu.antt =====
-- Address translation: vp/src/core/common/mmu.h. The memory that holds the page tables is an
-- interface of the three operations of `mmu_memory_if`; `Setting` holds what the unit reads from the
-- processor. An exception other than a page fault, and a failed assertion, is `failed`. Timing is left
-- out.
pub mod Walk
pub mod Tlb
pub mod Page
pub mod History
pub mod Tests
use dse_vp.Base.{
  ℕ, zero, suc, ◌+◌, ◌-◌, ◌*◌, ◌%◌, ◌^◌, Bool, true, false, not, ◌&&◌, ◌||◌, Option, none, some,
  bit_and, bit_or, ltb, leb, ◌==◌, if◌then◌else◌, u32, not32, ◌<<◌, ◌>>◌,
}

pub record PteMemory (M : Type 0) : Type 0 where
  pub mmu_load_pte32 : ℕ → M → ℕ
  pub mmu_load_pte64 : ℕ → M → ℕ
  pub mmu_store_pte32 : ℕ → ℕ → M → M

pub data Access : Type 0 where
  fetch : Access
  load : Access
  store : Access

pub record Setting : Type 0 where
  pub xlen : ℕ
  pub satp_mode : ℕ
  pub satp_ppn : ℕ
  pub prv : ℕ
  pub mprv : Bool
  pub mpp : ℕ
  pub sum : Bool
  pub mxr : Bool
  pub page_fault_on_ad : Bool

pub record VmInfo : Type 0 where
  pub levels : ℕ
  pub idxbits : ℕ
  pub ptesize : ℕ
  pub ptbase : ℕ

pub data Translation (M : Type 0) : Type 0 where
  translated : ℕ → M → Translation M
  page_fault : Translation M
  failed : Translation M

abbrev pub u64 : ℕ → ℕ
u64 n = n % 2 ^ 64

abbrev pub not64 : ℕ → ℕ
not64 n = 2 ^ 64 - 1 - n

-- The accessors `V`, `R`, `W`, `X`, `U` of `pte_t` test the bits 0 to 4.
abbrev pub pte_flag : ℕ → ℕ → Bool
pte_flag pte k = not (bit_and pte (2 ^ k) == 0)

abbrev pub is_fetch : Access → Bool
is_fetch Access.fetch = true
is_fetch _ = false

abbrev pub is_load : Access → Bool
is_load Access.load = true
is_load _ = false

abbrev pub is_store : Access → Bool
is_store Access.store = true
is_store _ = false

unfoldable pub decode_vm_info : Setting → ℕ → Option VmInfo
decode_vm_info s prv =
    let ptbase = u64 (s.satp_ppn << 12) in
    if not (leb prv 1)
    then none
    else if s.satp_mode == 1
    then some (record { levels = 2; idxbits = 10; ptesize = 4; ptbase = ptbase })
    else if s.satp_mode == 8
    then some (record { levels = 3; idxbits = 9; ptesize = 8; ptbase = ptbase })
    else if s.satp_mode == 9
    then some (record { levels = 4; idxbits = 9; ptesize = 8; ptbase = ptbase })
    else if s.satp_mode == 10
    then some (record { levels = 5; idxbits = 9; ptesize = 8; ptbase = ptbase })
    else if s.satp_mode == 11
    then some (record { levels = 6; idxbits = 9; ptesize = 8; ptbase = ptbase })
    else none

-- The high bits all equal the sign bit. The shift by `xlen - highbit` is defined where that is not
-- negative.
unfoldable pub check_vaddr_extension : Setting → ℕ → VmInfo → Bool
check_vaddr_extension s vaddr vm =
    let highbit = vm.idxbits * vm.levels + 12 - 1 in
    let ext_mask = 2 ^ (s.xlen - highbit) - 1 in
    let bits = bit_and (vaddr >> highbit) ext_mask in bits == 0 || bits == ext_mask

module _ {M : Type 0} (mem : PteMemory M) (s : Setting) (vaddr : ℕ) (type : Access) where
  unfoldable pub leaf_address : VmInfo → ℕ → ℕ → ℕ
  leaf_address vm i ppn =
      let mask = 2 ^ (i * vm.idxbits) - 1 in
      let vpn = vaddr >> 12 in
      let pgoff = bit_and vaddr 4095 in
      bit_or (u64 (bit_or (bit_and ppn (not64 mask)) (bit_and vpn mask) << 12)) pgoff

  -- A leaf entry at `pte_paddr` for level `i`: the checks in the order of the source, and the update of
  -- the accessed and dirty flags.
  unfoldable pub visit_leaf : VmInfo → Bool → ℕ → ℕ → ℕ → M → Translation M
  visit_leaf vm s_mode i pte_paddr pte m =
      let ppn = pte >> 10 in
      let ad = bit_or (2 ^ 6) (if is_store type then 2 ^ 7 else 0) in
      if is_fetch type && not (pte_flag pte 3)
      then page_fault
      else if is_load type && (not (pte_flag pte 1) && not (s.mxr && pte_flag pte 3))
      then page_fault
      else if is_store type && not (pte_flag pte 1 && pte_flag pte 2)
      then page_fault
      else if (if pte_flag pte 4 then s_mode && (is_fetch type || not s.sum) else not s_mode)
      then page_fault
      else if not (bit_and ppn (2 ^ (i * vm.idxbits) - 1) == 0)
      then page_fault
      else if not (bit_and pte ad == ad)
      then (if s.page_fault_on_ad
          then page_fault
          else translated (leaf_address vm i ppn)
              (mem.mmu_store_pte32 pte_paddr (u32 (bit_or pte ad)) m))
      else translated (leaf_address vm i ppn) m

  -- The loop of `walk` with `left` levels to go, from the table at `base`.
  unfoldable pub walk_from : VmInfo → Bool → ℕ → ℕ → M → Translation M
  walk_from vm s_mode zero base m = page_fault
  walk_from vm s_mode (suc i) base m =
      let vpn_field = bit_and (vaddr >> (12 + i * vm.idxbits)) (2 ^ vm.idxbits - 1) in
      let pte_paddr = u64 (base + vpn_field * vm.ptesize) in
      let pte =
        if vm.ptesize == 4
        then mem.mmu_load_pte32 pte_paddr m
        else mem.mmu_load_pte64 pte_paddr m in
      let rest = walk_from vm s_mode i (u64 ((pte >> 10) << 12)) m in
      if not (pte_flag pte 0) || (not (pte_flag pte 1) && pte_flag pte 2)
      then page_fault
      else if not (pte_flag pte 1) && not (pte_flag pte 3)
      then rest
      else visit_leaf vm s_mode i pte_paddr pte m

  unfoldable pub walk : ℕ → M → Translation M
  walk mode m = elim (decode_vm_info s mode) [
    | none ↦ failed
    | some vm ↦
        walk_from vm (mode == 1) (if check_vaddr_extension s vaddr vm then vm.levels else 0)
          vm.ptbase m
  ]

-- The state of the unit: page tables in memory, and the translation buffer by mode, kind of access
-- and index.
pub record Mmu (M : Type 0) : Type 0 where
  pub memory : M
  pub tlb_ppn : ℕ → Access → ℕ → ℕ
  pub tlb_vpn : ℕ → Access → ℕ → ℕ

abbrev pub same_access : Access → Access → Bool
same_access Access.fetch t = is_fetch t
same_access Access.load t = is_load t
same_access Access.store t = is_store t

abbrev pub put : (ℕ → Access → ℕ → ℕ) → ℕ → Access → ℕ → ℕ → ℕ → Access → ℕ → ℕ
put f mode type idx v n t k = if n == mode && (same_access type t && k == idx) then v else f n t k

-- Every byte of the buffer becomes 0xFF.
unfoldable pub flush_tlb : {M : Type 0} → Mmu M → Mmu M
flush_tlb u = record u {
  tlb_ppn = λ mode type idx. 2 ^ 64 - 1;
  tlb_vpn = λ mode type idx. 2 ^ 64 - 1;
}

-- `PGMASK` is an `unsigned`, so that `~PGMASK` has 32 bits and a page's number is kept without the bits from 32 on.
module _ {M : Type 0} (mem : PteMemory M) (s : Setting) where
  unfoldable pub effective_mode : Access → ℕ
  effective_mode type = if not (is_fetch type) && s.mprv then s.mpp else s.prv

  unfoldable pub translate_virtual_to_physical_addr : ℕ → Access → Mmu M → Translation (Mmu M)
  translate_virtual_to_physical_addr vaddr type u =
      let mode = effective_mode type in
      let vpn = vaddr >> 12 in
      let idx = vpn % 256 in
      if s.satp_mode == 0
      then translated vaddr u
      else if mode == 3
      then translated vaddr u
      else if not (mode == 0 || mode == 1)
      then failed
      else if u.tlb_vpn mode type idx == vpn
      then translated (bit_or (u.tlb_ppn mode type idx) (bit_and vaddr 4095)) u
      else elim (walk mem s vaddr type mode u.memory) [
        | page_fault ↦ page_fault
        | failed ↦ failed
        | translated paddr m ↦ translated paddr (record u {
          memory = m;
          tlb_ppn = put u.tlb_ppn mode type idx (bit_and paddr (not32 4095));
          tlb_vpn = put u.tlb_vpn mode type idx vpn;
        })
      ]
