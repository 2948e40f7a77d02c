-- ===== src/Core/Exec/Interface.antt =====
-- The way of the processor's accesses to the platform: the ranges of direct access of
-- vp/src/core/common/dmi.h, and the choice between them and the socket in the functions
-- `_raw_load_data` and `_raw_store_data` of vp/src/core/rv32/mem.h. Delays and the activity of the power model are left
-- out.
pub mod Access
pub mod Tests
use dse_vp.Base.{
  ℕ, ◌+◌, ◌-◌, Bool, true, false, ◌&&◌, ◌||◌, Option, none, some, List, [], ◌∷◌, ltb, leb,
  if◌then◌else◌,
}
use dse_vp.Tlm.{Response, ok, address_error, failure, Target, Part}
use dse_vp.Tlm.Bytes.{load, store, to_word, to_bytes}
use dse_vp.Core.Mmu.{translated}
use dse_vp.Core.Exec.{Bus}

pub record MemoryDmi (M : Type 0) : Type 0 where
  pub mem : Part M (ℕ → ℕ)
  pub start : ℕ
  pub end : ℕ

module _ {M : Type 0} where
  abbrev pub contains : MemoryDmi M → ℕ → Bool
  contains d addr = leb d.start addr && ltb addr d.end

  unfoldable pub dmi_load : ℕ → ℕ → M → MemoryDmi M → Response (ℕ × M)
  dmi_load n addr m d =
      if leb (addr + n) d.end
      then ok (to_word (load n (addr - d.start) (d.mem.view m)), m)
      else failure

  unfoldable pub dmi_store : ℕ → ℕ → ℕ → M → MemoryDmi M → Response M
  dmi_store n addr value m d =
      if leb (addr + n) d.end
      then ok (d.mem.update (store (addr - d.start) (to_bytes n value) (d.mem.view m)) m)
      else failure

  abbrev pub word_of : Response (List ℕ × M) → Response (ℕ × M)
  word_of (ok (bs, m)) = ok (to_word bs, m)
  word_of address_error = address_error
  word_of failure = failure

  -- The first range with the address, or the socket.
  unfoldable pub raw_load : Target M → List (MemoryDmi M) → ℕ → ℕ → M → Response (ℕ × M)
  raw_load isock [] n addr m = word_of (isock.read addr n m)
  raw_load isock (d ∷ ranges) n addr m =
      let rest = raw_load isock ranges n addr m in
      if contains d addr then dmi_load n addr m d else rest

  -- The loop over the ranges, which goes on after a store, and whether one was found.
  unfoldable pub store_ranges : List (MemoryDmi M) → ℕ → ℕ → ℕ → Bool → M → Response (Bool × M)
  store_ranges [] n addr value found m = ok (found, m)
  store_ranges (d ∷ ranges) n addr value found m = elim (contains d addr) [
    | false ↦ store_ranges ranges n addr value found m
    | true ↦ elim (dmi_store n addr value m d) [
      | ok m' ↦ store_ranges ranges n addr value true m'
      | address_error ↦ address_error
      | failure ↦ failure
    ]
  ]

  unfoldable pub raw_store : Target M → List (MemoryDmi M) → ℕ → ℕ → ℕ → M → Response M
  raw_store isock ranges n addr value m = elim (store_ranges ranges n addr value false m) [
    | ok (true, m') ↦ ok m'
    | ok (false, m') ↦ isock.write addr (to_bytes n value) m'
    | address_error ↦ address_error
    | failure ↦ failure
  ]

  -- The interface of a processor without a memory management unit (`mmu` is null), which has no
  -- translation buffer to flush.
  abbrev pub direct_bus : Target M → List (MemoryDmi M) → (M → ℕ × M) → Bus M
  direct_bus isock ranges mtime = record {
    page_fault_on_ad = false;
    v2p = λ s a t m. translated a (m, false);
    raw_load = raw_load isock ranges;
    raw_store = raw_store isock ranges;
    flush_tlb = λ m. m;
    mtime = mtime;
  }
