-- ===== src/Platform/Clint/Tests.antt =====
-- The core-local interruptor on the bus, at a concrete state.
use dse_vp.Base.{ℕ, ◌*◌, ◌%◌, ◌≡◌, ◌≢◌, Option, some, none, arith}
use dse_vp.Tlm.{ok}
use dse_vp.Tlm.Bytes.{to_bytes}
use dse_vp.Platform.Clint.{Clint}
use dse_vp.Platform.Clint.Transport.{transport_write}
use dse_vp.Platform.Clint.Software.{software_pin, transport_write-software_pin}
use dse_vp.Core.Exec.Tests.{start}

abbrev clint : Clint
clint = record {
  mtime = 0;
  mtimecmp = λ i. 0;
  msip = λ i. 0;
  target_harts = λ i. start.hart;
  irq_event = none;
}

abbrev later : Option ℕ → ℕ → Option ℕ
later pending time = some time

transport_write-software_pin_example :
    (t : Clint) × (transport_write 5 later 0 0 (4 * 3) (to_bytes 4 7) clint ≡ ok t)
    × (software_pin (t.target_harts 3) ≡ 7 % 2)
    × ((k : ℕ) → k ≢ 3 → t.target_harts k ≡ start.hart)
transport_write-software_pin_example =
    transport_write-software_pin 5 later 0 0 3 7 clint (omega arith) (omega arith) (omega arith)
