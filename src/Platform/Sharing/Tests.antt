-- ===== src/Platform/Sharing/Tests.antt =====
-- Two harts on the bus, at concrete states.
use dse_vp.Base.{ℕ, ◌+◌, ◌≤◌, ◌<◌, ◌≡◌, refl, [], true, false, arith}
use dse_vp.Tlm.Bytes.{load, store, to_word, to_bytes}
use dse_vp.Platform.Bus.{BusLock, transport, lock, unlock}
use dse_vp.Platform.Bus.Routing.{mapped, transport-IsMemory}
use dse_vp.Platform.Bus.Tests.{whole, whole-IsPart, ports, decode-ports}
use dse_vp.Platform.Sharing.{
  Shared, returned, reserved, atomic_load_reserved_word, atomic_store_conditional_word,
  store_conditional, releases, atomic_unlock, Others, none_yet, by_hart,
}
use dse_vp.Platform.Sharing.Reservation.{reserved-conditional}

abbrev free : Shared (ℕ → ℕ)
free = record { bus_lock = record { locked = false; owner = 0 }; lr_addr = λ n. 0; memory = λ k. 0 }

abbrev held : BusLock
held = record { locked = true; owner = 1 }

-- Hart 0 stores conditionally, which fails, and ends its reservation.
others :
    Others
      (transport (ports 0x1000))
      []
      1
      (reserved 1 0x1010 held free)
      (reserved 1 0x1010 held free)
unfolding atomic_store_conditional_word atomic_unlock unlock
others =
    by_hart 0 releases (by_hart 0 (store_conditional 0x1010 7) none_yet (omega arith) refl)
      (omega arith) refl

reserved-conditional_example :
    (atomic_load_reserved_word (transport (ports 0x1000)) [] 1 0x1010 free
      ≡ returned
          (to_word (load 4 0x1010 (mapped whole 0x1000 free.memory)))
          (reserved 1 0x1010 held free))
    × (r : Shared (ℕ → ℕ)) × (atomic_store_conditional_word
          (transport (ports 0x1000))
          []
          1
          0x1010
          5
          (reserved 1 0x1010 held free)
        ≡ returned true r)
    × (r.bus_lock.locked ≡ false)
    × ((k : ℕ)
        → 0x1000 ≤ k
        → k < 0x1000 + 4096
        → mapped whole 0x1000 r.memory k
          ≡ store 0x1010 (to_bytes 4 5) (mapped whole 0x1000 free.memory) k)
unfolding lock
reserved-conditional_example =
    reserved-conditional (transport (ports 0x1000)) (mapped whole 0x1000) 0x1000 (0x1000 + 4096)
      (transport-IsMemory whole whole-IsPart 4096 (ports 0x1000) 0x1000 (0x1000 + 4095)
        (omega arith) (decode-ports 0x1000))
      1 0x1010 5 held free (reserved 1 0x1010 held free) refl others (omega arith) (omega arith)
