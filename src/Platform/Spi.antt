-- ===== src/Platform/Spi.antt =====
-- The SPI controller of vp/src/platform/hifive/spi.h, with its registers in a bank of Platform/Banks. A target is
-- what the device that is connected to a chip select does with a byte: its answer and the devices' new state, `D`.
-- The queue has its front at the head of the list.
pub mod Kept
pub mod Queue
pub mod Tests
use dse_vp.Base.{
  ℕ, ◌+◌, ◌%◌, ◌^◌, Bool, true, false, not, ◌&&◌, ◌||◌, Option, none, some, List, [], ◌∷◌, ◌++◌,
  length, ltb, ◌==◌, if◌then◌else◌, bit_and, bit_or,
}
use dse_vp.Tlm.{Part}
use dse_vp.Platform.Banks.{
  RegMapping, Transfer, RegisterAccess, Mapped, registers, read_write, transport as transport_bank,
}

pub record Spi (D : Type 0) : Type 0 where
  pub rxqueue : List ℕ
  pub sckdiv : ℕ
  pub sckmode : ℕ
  pub csid : ℕ
  pub csdef : ℕ
  pub csmode : ℕ
  pub delay0 : ℕ
  pub delay1 : ℕ
  pub fmt : ℕ
  pub txdata : ℕ
  pub rxdata : ℕ
  pub txmark : ℕ
  pub rxmark : ℕ
  pub fctrl : ℕ
  pub ffmt : ℕ
  pub ie : ℕ
  pub ip : ℕ
  pub devices : D

abbrev pub queue_size : ℕ
queue_size = 16

abbrev pub txdata_addr : ℕ
txdata_addr = 0x48

abbrev pub rxdata_addr : ℕ
rxdata_addr = 0x4C

-- A device gets a byte, and answers with a byte.
abbrev pub WriteFunction : Type 0 → Type 0
WriteFunction D = ℕ → D → ℕ × D

abbrev pub Targets : Type 0 → Type 0
Targets D = ℕ → Option (WriteFunction D)

abbrev pub pop : List ℕ → List ℕ
pop [] = []
pop (b ∷ rest) = rest

-- The queue with a further byte, without its front where it has grown too long.
unfoldable pub push : ℕ → List ℕ → List ℕ
push b queue = let q = queue ++ (b ∷ []) in if ltb queue_size (length q) then pop q else q

module _ {D : Type 0} where
  -- A chip select that is connected already stays as it is.
  unfoldable pub connect : ℕ → WriteFunction D → Targets D → Targets D
  connect cs interface targets n =
      if (cs == 1 || ltb 3 cs) || not (n == cs)
      then targets n
      else elim (targets n) [ none ↦ some interface | some f ↦ some f ]

  abbrev pub mapping : ℕ → (Spi D → ℕ) → (ℕ → Spi D → Spi D) → RegMapping (Spi D)
  mapping addr view update = record {
    addr = addr;
    reg = record { view = view; update = update };
    mode = read_write;
    mask = 0xFFFFFFFF;
  }

  abbrev pub register_bank : List (RegMapping (Spi D))
  register_bank =
      mapping 0x00 (λ s. s.sckdiv) (λ v s. record s { sckdiv = v })
      ∷ mapping 0x04 (λ s. s.sckmode) (λ v s. record s { sckmode = v })
      ∷ mapping 0x10 (λ s. s.csid) (λ v s. record s { csid = v })
      ∷ mapping 0x14 (λ s. s.csdef) (λ v s. record s { csdef = v })
      ∷ mapping 0x18 (λ s. s.csmode) (λ v s. record s { csmode = v })
      ∷ mapping 0x28 (λ s. s.delay0) (λ v s. record s { delay0 = v })
      ∷ mapping 0x2C (λ s. s.delay1) (λ v s. record s { delay1 = v })
      ∷ mapping 0x40 (λ s. s.fmt) (λ v s. record s { fmt = v })
      ∷ mapping txdata_addr (λ s. s.txdata) (λ v s. record s { txdata = v })
      ∷ mapping rxdata_addr (λ s. s.rxdata) (λ v s. record s { rxdata = v })
      ∷ mapping 0x50 (λ s. s.txmark) (λ v s. record s { txmark = v })
      ∷ mapping 0x54 (λ s. s.rxmark) (λ v s. record s { rxmark = v })
      ∷ mapping 0x60 (λ s. s.fctrl) (λ v s. record s { fctrl = v })
      ∷ mapping 0x64 (λ s. s.ffmt) (λ v s. record s { ffmt = v })
      ∷ mapping 0x70 (λ s. s.ie) (λ v s. record s { ie = v })
      ∷ mapping 0x74 (λ s. s.ip) (λ v s. record s { ip = v })
      ∷ []

  -- The next byte, or the mark that there is none.
  unfoldable pub pop_rx : Spi D → Spi D
  pop_rx s = elim s.rxqueue [
    | [] ↦ record s { rxdata = 2 ^ 31 }
    | b ∷ rest ↦ record s { rxdata = b; rxqueue = rest }
  ]

  -- The byte that is written to a target.
  unfoldable pub exchange : WriteFunction D → Spi D → Spi D
  exchange f s =
      let (answer, devices) = f (s.txdata % 256) s.devices in
      record s {
        rxqueue = push answer s.rxqueue;
        devices = devices;
        ip = if ltb 0 s.txmark && not (bit_and s.ie 1 == 0) then bit_or s.ip 1 else s.ip;
      }

  module _ (targets : Targets D) where
    unfoldable pub before_read : ℕ → Spi D → Spi D
    before_read vptr s =
        if vptr == rxdata_addr then elim (targets s.csid) [ none ↦ s | some f ↦ pop_rx s ] else s

    unfoldable pub after_write : ℕ → Spi D → Spi D
    after_write vptr s =
        if vptr == txdata_addr
        then record (elim (targets s.csid) [ none ↦ s | some f ↦ exchange f s ]) { txdata = 0 }
        else s

    unfoldable pub register_access_callback :
        RegisterAccess
        → (Transfer (Spi D) → Option (Transfer (Spi D)))
        → Transfer (Spi D)
        → Option (Transfer (Spi D))
    register_access_callback r fn t =
        if r.write
        then elim (fn t) [
          | none ↦ none
          | some u ↦ some (record u { state = after_write r.vptr u.state })
        ]
        else fn (record t { state = before_read r.vptr t.state })

    unfoldable pub transport : Bool → ℕ → Transfer (Spi D) → Option (Transfer (Spi D))
    transport = transport_bank (registers register_bank register_access_callback ∷ [])
