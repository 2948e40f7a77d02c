-- ===== src/Core/Mmu/Tests.antt =====
-- A page table with one leaf for 4 MiB.
use dse_vp.Base.{
  ℕ, [], ◌∷◌, arith, ◌-◌, ◌%◌, ◌^◌, ◌≡◌, refl, true, false, some, if◌then◌else◌, ◌==◌,
}
use dse_vp.Core.Mmu.{
  PteMemory, Access, Setting, VmInfo, Mmu, Translation, decode_vm_info, check_vaddr_extension,
  leaf_address, visit_leaf, walk_from, walk, effective_mode, translate_virtual_to_physical_addr,
  flush_tlb,
}
use dse_vp.Core.Mmu.Walk.{IsGranted, walk-IsGranted}
use dse_vp.Core.Mmu.Tlb.{hits, translate-again, translate-truncated}
use dse_vp.Core.Mmu.History.{
  IsRemembered, Since, flushed, written, used, translate-any_flags, translate-IsRemembered,
}

abbrev ram : PteMemory (ℕ → ℕ)
ram = record {
  mmu_load_pte32 = λ a m. m a;
  mmu_load_pte64 = λ a m. m a;
  mmu_store_pte32 = λ a v m x. if x == a then v else m x;
}

abbrev user : Setting
user = record {
  xlen = 32;
  satp_mode = 1;
  satp_ppn = 1;
  prv = 0;
  mprv = false;
  mpp = 0;
  sum = false;
  mxr = false;
  page_fault_on_ad = false;
}

abbrev tables : ℕ → ℕ
tables a = if a == 4100 then 2097375 else 0

abbrev empty : Mmu (ℕ → ℕ)
empty = record { memory = tables; tlb_ppn = λ m t k. 2 ^ 64 - 1; tlb_vpn = λ m t k. 2 ^ 64 - 1 }

abbrev sv32 : VmInfo
sv32 = record { levels = 2; idxbits = 10; ptesize = 4; ptbase = 4096 }

walk-IsGranted_example :
    (vm : VmInfo) × (decode_vm_info user 0 ≡ some vm)
    × IsGranted ram user 4198964 vm tables false Access.load 8393268
unfolding walk walk_from visit_leaf leaf_address decode_vm_info check_vaddr_extension
walk-IsGranted_example = walk-IsGranted ram user 4198964 Access.load 0 tables tables 8393268 refl

abbrev state_of : Translation (Mmu (ℕ → ℕ)) → Mmu (ℕ → ℕ)
state_of (Translation.translated p u) = u
state_of _ = empty

translate-again_example :
    let v = state_of (translate_virtual_to_physical_addr ram user 4198964 Access.load empty) in
    translate_virtual_to_physical_addr ram user 4198964 Access.load v
    ≡ Translation.translated 8393268 v
unfolding translate_virtual_to_physical_addr effective_mode walk walk_from visit_leaf leaf_address
    decode_vm_info check_vaddr_extension
translate-again_example =
    translate-again ram user 4198964 Access.load empty
      (state_of (translate_virtual_to_physical_addr ram user 4198964 Access.load empty)) 8393268
      (omega arith) refl

-- The supervisor with and without access to the pages of the user.
abbrev kernel : Setting
kernel = record user { prv = 1; sum = true }

translate-any_flags_example :
    let v = state_of (translate_virtual_to_physical_addr ram kernel 4198964 Access.load empty) in
    translate_virtual_to_physical_addr ram (record kernel { sum = false }) 4198964 Access.load v
    ≡ Translation.translated 8393268 v
unfolding translate_virtual_to_physical_addr effective_mode walk walk_from visit_leaf leaf_address
    decode_vm_info check_vaddr_extension
translate-any_flags_example =
    translate-any_flags ram kernel 4198964 Access.load empty
      (state_of (translate_virtual_to_physical_addr ram kernel 4198964 Access.load empty)) 8393268
      false false (record { paged = refl; lower = refl; known = refl }) (omega arith) refl

refused :
    translate_virtual_to_physical_addr ram (record kernel { sum = false }) 4198964 Access.load empty
    ≡ Translation.page_fault
unfolding translate_virtual_to_physical_addr effective_mode walk walk_from visit_leaf leaf_address
    decode_vm_info check_vaddr_extension
refused = refl

-- An address, and another one of its page once the tables are gone.
abbrev once : Mmu (ℕ → ℕ)
once = state_of (translate_virtual_to_physical_addr ram user 4198964 Access.load (flush_tlb empty))

once-Since : Since ram ((user, tables) ∷ []) once
unfolding translate_virtual_to_physical_addr effective_mode walk walk_from visit_leaf leaf_address
    decode_vm_info check_vaddr_extension flush_tlb
once-Since = used user 4198964 8393268 Access.load (flushed empty) (omega arith) refl

translate-IsRemembered_example :
    (full : ℕ) × IsRemembered ram ((user, λ a. 0) ∷ (user, tables) ∷ []) 0 Access.load 4198968 full
    × (8393272 ≡ (
        if hits ram user 4198968 Access.load (record once { memory = λ a. 0 })
        then full % 2 ^ 32
        else full))
unfolding translate_virtual_to_physical_addr effective_mode walk walk_from visit_leaf leaf_address
    decode_vm_info check_vaddr_extension flush_tlb
translate-IsRemembered_example =
    translate-IsRemembered ram user 4198968 8393272 Access.load (record once { memory = λ a. 0 })
      (written (λ a. 0) once-Since) (omega arith)
      (record { paged = refl; lower = refl; known = refl }) refl

-- A leaf for 4 MiB from 2 ^ 32 + 2 ^ 23 on.
abbrev beyond : Mmu (ℕ → ℕ)
beyond = record empty { memory = λ a. if a == 4100 then 1075839199 else 0 }

translate-truncated_example :
    (v : Mmu (ℕ → ℕ)) × (translate_virtual_to_physical_addr ram user 4198964 Access.load beyond
      ≡ Translation.translated 4303360564 v)
    × (translate_virtual_to_physical_addr ram user 4198964 Access.load v
        ≡ Translation.translated (4303360564 % 2 ^ 32) v)
unfolding effective_mode walk walk_from visit_leaf leaf_address decode_vm_info check_vaddr_extension
translate-truncated_example =
    translate-truncated ram user 4198964 Access.load beyond 4303360564 beyond.memory
      (record { paged = refl; lower = refl; known = refl }) refl refl
