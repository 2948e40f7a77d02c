-- ===== src/Platform/Bus/Routing.antt =====
-- Memory behind the bus is memory.
use dse_vp.Base.{ℕ, ◌+◌, ◌-◌, ◌^◌, ◌≤◌, ◌<◌, ◌≡◌, ap, ◌∙◌, List, length, some, arith}
use dse_vp.Tlm.{Target, Part, on_part, with_part, update_part, ok}
use dse_vp.Tlm.Bytes.{load, store, load_ext}
use dse_vp.Tlm.Memory.{IsPart, IsMemory}
use dse_vp.Platform.Bus.{Port, decode, transport, connect, found, read_port, write_port}
use dse_vp.Platform.Memory
use dse_vp.Platform.Memory.{read_data, write_data}

-- The bytes of a memory that is mapped to `start`, at the addresses of the bus.
abbrev pub mapped : {M : Type 0} → Part M (ℕ → ℕ) → ℕ → M → ℕ → ℕ
mapped p start m k = p.view m (k - start)

memory-read :
    (size a n : ℕ) (m : ℕ → ℕ)
    → size < 2 ^ 32
    → a < size
    → a + n ≤ size
    → (Memory.transport size).read a n m ≡ ok (load n a m, m)
unfolding Memory.transport read_data
memory-read size a n m small h k = ground arith

memory-write :
    (size a : ℕ) (bs : List ℕ) (m : ℕ → ℕ)
    → size < 2 ^ 32
    → a < size
    → a + length bs ≤ size
    → (Memory.transport size).write a bs m ≡ ok (store a bs m)
unfolding Memory.transport write_data
memory-write size a bs m small h k = ground arith

store-shift :
    (start a k : ℕ) (bs : List ℕ) (m : ℕ → ℕ)
    → start ≤ a
    → start ≤ k
    → store (a - start) bs m (k - start) ≡ store a bs (λ j. m (j - start)) k
unfolding store
store-shift start a k bs m h l = ground arith

module _ {M : Type 0} (part : Part M (ℕ → ℕ)) (laws : IsPart part) (size : ℕ) where
  abbrev memory : Target M
  memory = on_part part (Memory.transport size)

  part-read :
      (a n : ℕ) (m : M)
      → size < 2 ^ 32
      → a < size
      → a + n ≤ size
      → memory.read a n m ≡ ok (load n a (part.view m), m)
  part-read a n m small h k =
      ap (with_part part m) (memory-read size a n (part.view m) small h k)
      ∙ ap (λ t. ok (load n a (part.view m), t)) (laws.update-view m)

  part-write :
      (a : ℕ) (bs : List ℕ) (m : M)
      → size < 2 ^ 32
      → a < size
      → a + length bs ≤ size
      → memory.write a bs m ≡ ok (part.update (store a bs (part.view m)) m)
  part-write a bs m small h k =
      ap (update_part part m) (memory-write size a bs (part.view m) small h k)

  -- A memory that the bus has at the addresses from `start` on, of a size below 2 ^ 32, is memory
  -- there for the components on the bus.
  pub transport-IsMemory :
      (ports : List (Port M)) (start end : ℕ)
      → size < 2 ^ 32
      → ((a : ℕ)
          → start ≤ a
          → a < start + size
          → decode ports a
            ≡ some (record { mapping = record { start = start; end = end }; socket = memory }))
      → IsMemory (transport ports) (mapped part start) start (start + size)
  unfolding transport
  transport-IsMemory ports start end small d = record {
    reads = λ a n m low high fits.
        ap (read_port a n m) (d a low high)
        ∙ part-read (a - start) n m small (omega arith) (omega arith)
        ∙ ap (λ bs. ok (bs, m))
            (load_ext n (a - start) a _ _ (λ k l. ap (part.view m) (omega arith)));
    writes = λ a bs m low high fits. (
      part.update (store (a - start) bs (part.view m)) m,
      ap (write_port a bs m) (d a low high)
          ∙ part-write (a - start) bs m small (omega arith) (omega arith),
      λ k l h.
          ap (λ f. f (k - start)) (laws.view-update _ m)
          ∙ store-shift start a k bs (part.view m) low l,
    );
  }

-- The adapter for components that write to the bus keeps what behaves as memory.
pub connect-IsMemory :
    {M : Type 0} (t : Target M) (bytes : M → ℕ → ℕ) (low high : ℕ)
    → IsMemory t bytes low high
    → IsMemory (connect t) bytes low high
unfolding connect
connect-IsMemory t bytes low high p = record {
  reads = λ a n m l h fits. ap found (p.reads a n m l h fits);
  writes = λ a bs m l h fits. let (m', e, f) = p.writes a bs m l h fits in (m', ap found e, f);
}
