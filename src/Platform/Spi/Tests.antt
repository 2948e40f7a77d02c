-- ===== src/Platform/Spi/Tests.antt =====
-- The SPI controller with one device, and one of its registers in a bank, at concrete inputs.
use dse_vp.Base.{
  ℕ, ◌+◌, ◌%◌, ◌≤◌, ◌<◌, ◌≡◌, ◌⊎◌, refl, true, false, none, some, Option, [], ◌∷◌, ◌++◌, length,
  get_or, if◌then◌else◌, ◌==◌, arith, zero, suc,
}
use dse_vp.Tlm.Memory.{IsPart}
use dse_vp.Platform.Banks.{
  RegMapping, Transfer, registers, byte_of, transport as transport_bank, find,
}
use dse_vp.Platform.Banks.Access.{AreBytes, IsPlainAt, write-read}
use dse_vp.Platform.Spi.{
  Spi, WriteFunction, Targets, mapping, register_bank, register_access_callback, after_write,
  before_read,
}
use dse_vp.Platform.Spi.Kept.{last_of, drop}
use dse_vp.Platform.Spi.Queue.{answers, send_all, receive_all, send_all-receive_all}

-- A device that answers with what it got before.
abbrev device : WriteFunction ℕ
device b d = (d % 256, b)

abbrev targets : Targets ℕ
targets cs = if cs == 2 then some device else none

abbrev spi : Spi ℕ
spi = record {
  rxqueue = 9 ∷ [];
  sckdiv = 0;
  sckmode = 0;
  csid = 2;
  csdef = 1;
  csmode = 0;
  delay0 = 0;
  delay1 = 0;
  fmt = 0;
  txdata = 0;
  rxdata = 0;
  txmark = 0;
  rxmark = 0;
  fctrl = 1;
  ffmt = 0;
  ie = 0;
  ip = 0;
  devices = 5;
}

send_all-receive_all_example :
    let kept = last_of ((9 ∷ []) ++ (answers device (7 ∷ 300 ∷ []) 5).0) in
    (t : Spi ℕ) × (u : Spi ℕ) × (send_all targets (7 ∷ 300 ∷ []) spi ≡ some t)
    × (receive_all targets (length kept) t ≡ some (kept, u))
    × (u.rxqueue ≡ [])
    × (u.devices ≡ (answers device (7 ∷ 300 ∷ []) 5).1)
send_all-receive_all_example =
    send_all-receive_all targets device (7 ∷ 300 ∷ []) spi refl (λ b e. omega arith)
      (omega arith, (omega arith, tt)) (omega arith, tt) (omega arith)

answered : last_of ((9 ∷ []) ++ (answers device (7 ∷ 300 ∷ []) 5).0) ≡ 9 ∷ 5 ∷ 7 ∷ []
unfolding last_of answers drop
answered = refl

abbrev csdef : RegMapping (Spi ℕ)
csdef = mapping 0x14 (λ s. s.csdef) (λ v s. record s { csdef = v })

csdef-IsPart : IsPart csdef.reg
csdef-IsPart = record { view-update = λ v s. refl; update-view = λ s. refl }

two_bytes : AreBytes (λ k. get_or (3 ∷ 4 ∷ []) k 0)
two_bytes zero = omega arith
two_bytes (suc zero) = omega arith
two_bytes (suc (suc k)) = omega arith

after_write_csdef :
    (o : Option (Transfer (Spi ℕ)))
    → (elim o as (λ x. Option (Transfer (Spi ℕ))) [
      | none ↦ none
      | some u ↦ some (record u { state = after_write targets 0x14 u.state })
    ])
      ≡ o
unfolding after_write
after_write_csdef none = refl
after_write_csdef (some u) = refl

-- Only txdata and rxdata are treated specially.
csdef-IsPlain : IsPlainAt (register_access_callback targets) 0x14
unfolding register_access_callback before_read
csdef-IsPlain true nv fn t = after_write_csdef (fn t)
csdef-IsPlain false nv fn t = refl

-- The two bytes in the middle of the register.
write-read_example :
    (u : Spi ℕ) × (transport_bank
        (registers register_bank (register_access_callback targets) ∷ [])
        true
        0x15
        (record { payload = 3 ∷ 4 ∷ []; state = spi })
      ≡ some (record { payload = 3 ∷ 4 ∷ []; state = u }))
    × (transport_bank
          (registers register_bank (register_access_callback targets) ∷ [])
          false
          0x15
          (record { payload = 0 ∷ 0 ∷ []; state = u })
        ≡ some (record { payload = 3 ∷ 4 ∷ []; state = u }))
    × ((k : ℕ) → k < 4 → (k < 1) ⊎ (1 + 2 ≤ k) → byte_of u.csdef k ≡ byte_of 1 k)
unfolding find
write-read_example =
    write-read csdef csdef-IsPart refl refl (register_access_callback targets) csdef-IsPlain
      register_bank [] 0x15 refl (3 ∷ 4 ∷ []) (0 ∷ 0 ∷ []) spi two_bytes refl (omega arith)
