-- ===== src/Platform/Bus/Tests.antt =====
-- A platform that is a memory of 4096 bytes behind the bus.
use dse_vp.Base.{
  ℕ, ◌+◌, ◌-◌, ◌≤◌, ◌<◌, ◌≡◌, inl, refl, false, ◌&&◌, [], ◌∷◌, List, some, ltb, leb, if◌then◌else◌,
  arith,
}
use dse_vp.Tlm.{Part, on_part}
use dse_vp.Tlm.Memory.{IsPart, IsMemory}
use dse_vp.Platform.Memory
use dse_vp.Platform.Bus.{Port, decode, transport, connect}
use dse_vp.Platform.Bus.Routing.{mapped, transport-IsMemory, connect-IsMemory}
use dse_vp.Platform.Dma.{Dma, perform_memcpy}
use dse_vp.Platform.Dma.Copy.{perform_memcpy-copies}

abbrev pub whole : Part (ℕ → ℕ) (ℕ → ℕ)
whole = record { view = λ m. m; update = λ d m. d }

pub whole-IsPart : IsPart whole
whole-IsPart = record { view-update = λ d m. refl; update-view = λ m. refl }

abbrev pub ports : ℕ → List (Port (ℕ → ℕ))
ports start =
    record {
      mapping = record { start = start; end = start + 4095 };
      socket = on_part whole (Memory.transport 4096);
    }
    ∷ []

pub decode-ports :
    (start a : ℕ)
    → start ≤ a
    → a < start + 4096
    → decode (ports start) a
      ≡ some (record {
        mapping = record { start = start; end = start + 4095 };
        socket = on_part whole (Memory.transport 4096);
      })
unfolding decode
decode-ports start a l h = ground arith

transport-IsMemory_example :
    IsMemory (transport (ports 0x1000)) (mapped whole 0x1000) 0x1000 (0x1000 + 4096)
transport-IsMemory_example =
    transport-IsMemory whole whole-IsPart 4096 (ports 0x1000) 0x1000 (0x1000 + 4095) (omega arith)
      (decode-ports 0x1000)

-- A copy of 130 bytes, of two whole blocks and a rest.
abbrev dma : Dma
dma = record { src = 0x1100; dst = 0x1200; len = 130; op = 1; buffer = λ k. 0; notified = false }

abbrev numbered : ℕ → ℕ
numbered a = a

perform_memcpy-copies_example :
    (d' : Dma) × (m' : ℕ → ℕ) × (perform_memcpy (connect (transport (ports 0x1000))) dma numbered
      ≡ some (d', m'))
    × ((k : ℕ)
        → 0x1000 ≤ k
        → k < 0x1000 + 4096
        → mapped whole 0x1000 m' k ≡ (
            if leb 0x1200 k && ltb k (0x1200 + 130)
            then mapped whole 0x1000 numbered (0x1100 + (k - 0x1200))
            else mapped whole 0x1000 numbered k))
perform_memcpy-copies_example =
    perform_memcpy-copies (connect (transport (ports 0x1000))) (mapped whole 0x1000) 0x1000
      (0x1000 + 4096)
      (connect-IsMemory (transport (ports 0x1000)) (mapped whole 0x1000) 0x1000 (0x1000 + 4096) (
        transport-IsMemory whole whole-IsPart 4096 (ports 0x1000) 0x1000 (0x1000 + 4095)
          (omega arith) (decode-ports 0x1000)))
      (omega arith) dma numbered (inl (omega arith)) (omega arith) (omega arith) (omega arith)
      (omega arith) (omega arith)
