-- ===== src/Platform/Banks/Access.antt =====
-- A write of some bytes of a register, and a read of them.
use dse_vp.Base.{
  ℕ, zero, suc, ◌+◌, ◌-◌, ◌%◌, ◌^◌, ◌≤◌, ◌<◌, ◌≡◌, ◌⊎◌, Bool, refl, ap, ◌∙◌, true, false, Option,
  none, some, List, ◌∷◌, length, leb, ◌&&◌, get_or, if◌then◌else◌, bit_and, and_low, arith,
}
use dse_vp.Tlm.Bytes.{load, store, to_word, load_ext, load-store, store-outside}
use dse_vp.Tlm.Memory.{IsPart}
use dse_vp.Platform.Banks.{
  RegMapping, Transfer, Handler, Mapped, registers, read_write, allows, byte_of, bus_write,
  bus_read, access, find, handle_register, try_handle, transport,
}

-- Whole bytes.
abbrev pub AreBytes : (ℕ → ℕ) → Type 0
AreBytes f = (k : ℕ) → f k < 256

byte_of-to_word : (f : ℕ → ℕ) (k : ℕ) → AreBytes f → k < 4 → byte_of (to_word (load 4 0 f)) k ≡ f k
unfolding to_word load
byte_of-to_word f zero h l = omega (arith, h 0, h 1, h 2, h 3)
byte_of-to_word f (suc zero) h l = omega (arith, h 0, h 1, h 2, h 3)
byte_of-to_word f (suc (suc zero)) h l = omega (arith, h 0, h 1, h 2, h 3)
byte_of-to_word f (suc (suc (suc zero))) h l = omega (arith, h 0, h 1, h 2, h 3)
byte_of-to_word f (suc (suc (suc (suc k)))) h l = absurd (omega arith)

to_word-IsWord : (f : ℕ → ℕ) → AreBytes f → to_word (load 4 0 f) < 2 ^ 32
unfolding to_word load
to_word-IsWord f h = omega (arith, h 0, h 1, h 2, h 3)

store-AreBytes :
    (a : ℕ) (bs : List ℕ) (f : ℕ → ℕ)
    → AreBytes (λ k. get_or bs k 0)
    → AreBytes f
    → AreBytes (store a bs f)
unfolding store
store-AreBytes a bs f h g k = ground (arith, h (k - a), g k)

-- The handler performs the accesses of the register at `addr` and does nothing else there.
abbrev pub IsPlainAt : {S : Type 0} → Handler S → ℕ → Type 0
IsPlainAt {S} handler addr =
    (write : Bool) (nv : ℕ) (fn : Transfer S → Option (Transfer S)) (t : Transfer S)
    → handler (record { write = write; vptr = addr; nv = nv }) fn t ≡ fn t

allows-read_write : (write : Bool) → allows read_write write ≡ true
allows-read_write true = refl
allows-read_write false = refl

module _ {S : Type 0} (r : RegMapping S) (laws : IsPart r.reg) (mode : r.mode ≡ read_write)
    (whole : r.mask ≡ 2 ^ 32 - 1) where
  -- The register with some bytes written.
  abbrev pub merged : ℕ → List ℕ → S → ℕ
  merged off bs s = to_word (load 4 0 (store off bs (byte_of (r.reg.view s))))

  bytes-AreBytes : (s : S) → AreBytes (byte_of (r.reg.view s))
  bytes-AreBytes s k = omega arith

  pub access-write :
      (off : ℕ) (bs : List ℕ) (s : S)
      → AreBytes (λ k. get_or bs k 0)
      → access r true off (record { payload = bs; state = s })
        ≡ some (record { payload = bs; state = r.reg.update (merged off bs s) s })
  unfolding access bus_write
  access-write off bs s h =
      let small : merged off bs s < 2 ^ 32 =
        to_word-IsWord (store off bs (byte_of (r.reg.view s)))
          (store-AreBytes off bs (byte_of (r.reg.view s)) h (bytes-AreBytes s)) in
      let kept : bit_and (merged off bs s) (2 ^ 32 - 1) ≡ merged off bs s =
        and_low 32 (merged off bs s) ∙ omega arith in
      rw (mode, whole, kept) refl

  pub access-read :
      (off : ℕ) (old : List ℕ) (s : S)
      → access r false off (record { payload = old; state = s })
        ≡ some (record { payload = load (length old) off (byte_of (r.reg.view s)); state = s })
  unfolding access bus_read
  access-read off old s = rw mode refl

  read-back :
      (off : ℕ) (bs old : List ℕ) (s : S)
      → AreBytes (λ k. get_or bs k 0)
      → length old ≡ length bs
      → length bs + off ≤ 4
      → load (length old) off (byte_of (r.reg.view (r.reg.update (merged off bs s) s))) ≡ bs
  read-back off bs old s h same fits =
      let f = store off bs (byte_of (r.reg.view s)) in
      ap (λ n. load (length old) off (byte_of n)) (laws.view-update (merged off bs s) s)
      ∙ ap (λ n. load n off (byte_of (merged off bs s))) same
      ∙ load_ext (length bs) off off (byte_of (merged off bs s)) f (λ k l.
        byte_of-to_word f (off + k)
          (store-AreBytes off bs (byte_of (r.reg.view s)) h (bytes-AreBytes s)) (omega arith))
      ∙ load-store off bs (byte_of (r.reg.view s))

  module _ (handler : Handler S) (calm : IsPlainAt handler r.addr) (regs : List (RegMapping S))
      (maps : List (Mapped S)) (addr : ℕ) (found : find regs (addr - addr % 4) ≡ some r) where
    transport-found :
        (write : Bool) (t : Transfer S)
        → length t.payload + addr % 4 ≤ 4
        → transport (registers regs handler ∷ maps) write addr t ≡ access r write (addr % 4) t
    unfolding transport try_handle handle_register
    transport-found write t fits =
        let answer =
          handler
            (record { write = write; vptr = r.addr; nv = if write then to_word t.payload else 0 })
            (access r write (addr % 4)) t in
        let permitted : (leb (length t.payload + addr % 4) 4 && allows r.mode write) ≡ true =
          ap (λ m. leb (length t.payload + addr % 4) 4 && allows m write) mode
          ∙ ap (λ b. leb (length t.payload + addr % 4) 4 && b) (allows-read_write write)
          ∙ ground arith in
        ap
          (λ o.
            elim (elim o as (λ x. Option (Option (Transfer S))) [
              | none ↦ none
              | some q ↦ some (handle_register handler write addr q t)
            ])
              as (λ x. Option (Transfer S)) [ none ↦ transport maps write addr t | some q ↦ q ])
          found
        ∙ ap (λ b. if b then answer else none) permitted
        ∙ calm write (if write then to_word t.payload else 0) (access r write (addr % 4)) t

    -- Some bytes of a register of a bank, which is read and written whole and for which the peripheral's
    -- handler does no more than the access, that are written and read again: the accesses succeed, the bytes
    -- come back, and the other bytes of the register are as they were.
    pub write-read :
        (bs old : List ℕ) (s : S)
        → AreBytes (λ k. get_or bs k 0)
        → length old ≡ length bs
        → length bs + addr % 4 ≤ 4
        → (u : S) × (transport
              (registers regs handler ∷ maps)
              true
              addr
              (record { payload = bs; state = s })
            ≡ some (record { payload = bs; state = u }))
          × (transport
                (registers regs handler ∷ maps)
                false
                addr
                (record { payload = old; state = u })
              ≡ some (record { payload = bs; state = u }))
          × ((k : ℕ)
              → k < 4
              → (k < addr % 4) ⊎ (addr % 4 + length bs ≤ k)
              → byte_of (r.reg.view u) k ≡ byte_of (r.reg.view s) k)
    write-read bs old s h same fits = (
      r.reg.update (merged (addr % 4) bs s) s,
      transport-found true (record { payload = bs; state = s }) fits
          ∙ access-write (addr % 4) bs s h,
      transport-found false
            (record { payload = old; state = r.reg.update (merged (addr % 4) bs s) s })
            (omega (arith, same))
          ∙ access-read (addr % 4) old (r.reg.update (merged (addr % 4) bs s) s)
          ∙ ap (λ b. some (record { payload = b; state = r.reg.update (merged (addr % 4) bs s) s }))
              (read-back (addr % 4) bs old s h same fits),
      λ k l out.
          ap (λ n. byte_of n k) (laws.view-update (merged (addr % 4) bs s) s)
          ∙ byte_of-to_word (store (addr % 4) bs (byte_of (r.reg.view s))) k
              (store-AreBytes (addr % 4) bs (byte_of (r.reg.view s)) h (bytes-AreBytes s)) l
          ∙ store-outside (addr % 4) k bs (byte_of (r.reg.view s)) out,
    )
