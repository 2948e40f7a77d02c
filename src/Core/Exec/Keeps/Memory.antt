-- ===== src/Core/Exec/Keeps/Memory.antt =====
-- Memory accesses keep the condition on the state.
use dse_vp.Base.{ℕ, Bool, true, false, arith}
use dse_vp.Core.Mmu.{Access}
use dse_vp.Core.Exec.{
  Bus, modify, set_bus_lock, v2p, raw_load_data, raw_store_data, load_data, store_data, load_instr,
  atomic_load_word, atomic_store_word, atomic_load_reserved_word, atomic_store_conditional_word,
}
use dse_vp.Core.Exec.Keeps.{Keeps, Keeps-bind}

module _ {M : Type 0} (bus : Bus M) where
  v2p-Keeps : (vaddr : ℕ) (type : Access) → Keeps (v2p bus vaddr type)
  unfolding v2p
  v2p-Keeps vaddr type = record { leaves = λ s p. ground arith }

  raw_load_data-Keeps : (n addr : ℕ) → Keeps (raw_load_data bus n addr)
  unfolding raw_load_data
  raw_load_data-Keeps n addr = record { leaves = λ s p. ground arith }

  raw_store_data-Keeps : (n addr value : ℕ) → Keeps (raw_store_data bus n addr value)
  unfolding raw_store_data
  raw_store_data-Keeps n addr value = record { leaves = λ s p. ground arith }

  pub load_data-Keeps : (n addr : ℕ) → Keeps (load_data bus n addr)
  unfolding load_data
  load_data-Keeps n addr =
      Keeps-bind _ _ (v2p-Keeps addr Access.load) (λ paddr. raw_load_data-Keeps n paddr)

  pub store_data-Keeps : (n addr value : ℕ) → Keeps (store_data bus n addr value)
  unfolding store_data
  store_data-Keeps n addr value =
      Keeps-bind _ _ (v2p-Keeps addr Access.store) (λ paddr. raw_store_data-Keeps n paddr value)

  pub load_instr-Keeps : (addr : ℕ) → Keeps (load_instr bus addr)
  unfolding load_instr
  load_instr-Keeps addr =
      Keeps-bind _ _ (v2p-Keeps addr Access.fetch) (λ paddr. raw_load_data-Keeps 4 paddr)

  set_bus_lock-Keeps : (b : Bool) → Keeps {M = M} (modify (set_bus_lock b))
  set_bus_lock-Keeps b = record { leaves = λ s p. ground arith }

  pub atomic_load_word-Keeps : (addr : ℕ) → Keeps (atomic_load_word bus addr)
  unfolding atomic_load_word
  atomic_load_word-Keeps addr = record {
    leaves = λ s p. (load_data-Keeps 4 addr).leaves _ ((set_bus_lock-Keeps true).leaves s p);
  }

  pub atomic_store_word-Keeps : (addr value : ℕ) → Keeps (atomic_store_word bus addr value)
  unfolding atomic_store_word
  atomic_store_word-Keeps addr value = record {
    leaves = λ s p. let stores = (store_data-Keeps 4 addr value).leaves s p in ground arith;
  }

  pub atomic_load_reserved_word-Keeps : (addr : ℕ) → Keeps (atomic_load_reserved_word bus addr)
  unfolding atomic_load_reserved_word
  atomic_load_reserved_word-Keeps addr = record {
    leaves = λ s p.
        (load_data-Keeps 4 addr).leaves _
          (record { regs_word = p.regs_word; even = ((set_bus_lock-Keeps true).leaves s p).even });
  }

  pub atomic_store_conditional_word-Keeps :
      (addr value : ℕ) → Keeps (atomic_store_conditional_word bus addr value)
  unfolding atomic_store_conditional_word
  atomic_store_conditional_word-Keeps addr value = record {
    leaves = λ s p.
        let stores = (store_data-Keeps 4 addr value).leaves s p in
        let unlocked = (set_bus_lock-Keeps false).leaves s p in ground arith;
  }
