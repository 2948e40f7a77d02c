-- ===== src/Tlm/Memory.antt =====
-- What a component promises that behaves as memory, for those who access it.
use dse_vp.Base.{ℕ, ◌+◌, ◌≤◌, ◌<◌, ◌≡◌, List, length}
use dse_vp.Tlm.{Target, Part, ok}
use dse_vp.Tlm.Bytes.{load, store}

-- The state of a part is what was last put there.
pub record IsPart {M D : Type 0} (p : Part M D) : Type 0 where
  pub view-update : (d : D) (m : M) → p.view (p.update d m) ≡ d
  pub update-view : (m : M) → p.update (p.view m) m ≡ m

-- The addresses from `low` up to `high` are those of memory, whose bytes `bytes` gives: a read returns them
-- and changes nothing, and a write changes those written.
pub record IsMemory {M : Type 0} (t : Target M) (bytes : M → ℕ → ℕ) (low high : ℕ) : Type 0 where
  pub reads :
      (a n : ℕ) (m : M)
      → low ≤ a
      → a < high
      → a + n ≤ high
      → t.read a n m ≡ ok (load n a (bytes m), m)
  pub writes :
      (a : ℕ) (bs : List ℕ) (m : M)
      → low ≤ a
      → a < high
      → a + length bs ≤ high
      → (m' : M) × (t.write a bs m ≡ ok m')
        × ((k : ℕ) → low ≤ k → k < high → bytes m' k ≡ store a bs (bytes m) k)
