-- ===== src/Platform/Clint/Software.antt =====
-- How a processor raises the software interrupt of another.
use dse_vp.Base.{
  ℕ, ◌-◌, ◌*◌, ◌/◌, ◌%◌, ◌^◌, ◌<◌, ◌≡◌, ◌≢◌, ap, ◌∙◌, Bool, true, false, not, ◌&&◌, Option, none,
  some, List, [], ◌∷◌, length, ltb, ◌==◌, if◌then◌else◌, bit_and, arith, digit, subst,
}
use dse_vp.Tlm.{Response, ok, failure}
use dse_vp.Tlm.Bytes.{load, store, to_word, to_bytes, length-to_bytes, to_word-to_bytes, load-store}
use dse_vp.Core.Trap.{Hart, trigger_software_interrupt}
use dse_vp.Base.{and_low}
use dse_vp.Core.Trap.Pins.{assign_bit-digit}
use dse_vp.Platform.Registers.{contains, aligned, fits}
use dse_vp.Platform.Registers.Access.{route_write-skip, route_write-here}
use dse_vp.Platform.Clint.{Clint, post_write_msip}
use dse_vp.Platform.Clint.Transport.{
  bytes_of, words_of, regs_mtime, regs_mtimecmp, regs_msip, transport_write,
}

abbrev pub software_pin : Hart → ℕ
software_pin h = digit h.csrs.mip 3

software_pin-trigger :
    (b : Bool) (h : Hart) → software_pin (trigger_software_interrupt b h) ≡ (if b then 1 else 0)
unfolding trigger_software_interrupt
software_pin-trigger b h = assign_bit-digit h.csrs.mip 3 3 b (omega arith) (omega arith)

-- A word that is written among others.
words-store :
    (i v : ℕ) (words : ℕ → ℕ)
    → v < 2 ^ 32
    → words_of 4 (store (4 * i) (to_bytes 4 v) (bytes_of 4 words)) i ≡ v
words-store i v words h =
    let at : i * 4 ≡ 4 * i = omega arith in
    let d = store (4 * i) (to_bytes 4 v) (bytes_of 4 words) in
    ap (λ a. to_word (load 4 a d)) at
    ∙ ap to_word (
        subst (λ j. load j (4 * i) d ≡ to_bytes 4 v) (length-to_bytes 4 v)
          (load-store (4 * i) (to_bytes 4 v) (bytes_of 4 words)))
    ∙ to_word-to_bytes 4 v
    ∙ omega arith

abbrev raised : ℕ → Clint → Clint
raised idx s = record s {
  msip = λ n. if n == idx then bit_and (s.msip n) 1 else s.msip n;
  target_harts = λ n.
      if n == idx
      then trigger_software_interrupt (not (bit_and (s.msip n) 1 == 0)) (s.target_harts n)
      else s.target_harts n;
}

raised-pin : (i : ℕ) (s : Clint) → software_pin ((raised i s).target_harts i) ≡ s.msip i % 2
raised-pin i s =
    let bit = not (bit_and (s.msip i) 1 == 0) in
    let self : (i == i) ≡ true = ground arith in
    let value : bit_and (s.msip i) 1 ≡ s.msip i % 2 = and_low 1 (s.msip i) in
    ap
      (λ b.
        software_pin
          (if b then trigger_software_interrupt bit (s.target_harts i) else s.target_harts i))
      self
    ∙ software_pin-trigger bit (s.target_harts i)
    ∙ ap (λ w. if not (w == 0) then 1 else 0) value
    ∙ ground arith

post_write_msip-aligned :
    (n i : ℕ) (s : Clint) → i < n → post_write_msip n (4 * i - 0) s ≡ some (raised i s)
unfolding post_write_msip
post_write_msip-aligned n i s h =
    let even : ((4 * i - 0) % 4 == 0) ≡ true = ground arith in
    let idx : (4 * i - 0) / 4 ≡ i = omega arith in
    let inside : ltb i n ≡ true = ground arith in
    ap (λ j. if (4 * i - 0) % 4 == 0 && ltb j n then some (raised j s) else none) idx
    ∙ ap (λ b. if b && ltb i n then some (raised i s) else none) even
    ∙ ap (λ b. if b then some (raised i s) else none) inside

-- The state when the bytes are in the array.
abbrev stored_msip : ℕ → List ℕ → Clint → Clint
stored_msip i bs s = record s { msip = words_of 4 (store (4 * i) bs (bytes_of 4 s.msip)) }

module _ (n : ℕ) (notify : Option ℕ → ℕ → Option ℕ) (now delay : ℕ) where
  transport_write-msip :
      (i : ℕ) (bs : List ℕ) (s : Clint)
      → i < n
      → n < 4096
      → length bs ≡ 4
      → transport_write n notify now delay (4 * i) bs s ≡ ok (raised i (stored_msip i bs s))
  unfolding transport_write regs_mtime regs_mtimecmp regs_msip
  transport_write-msip i bs s h small four =
      let time = regs_mtime n notify now delay in
      let cmp = regs_mtimecmp n notify now delay in
      let soft = regs_msip n notify now delay in
      let late : contains time (4 * i) ≡ false = ground arith in
      let middle : contains cmp (4 * i) ≡ false = ground arith in
      let here : contains soft (4 * i) ≡ true = ground arith in
      let even : (aligned soft (4 * i) (length bs) && true) ≡ true = ground arith in
      let room : fits soft (4 * i) (length bs) ≡ true = ground arith in
      let start : 4 * i - 0 ≡ 4 * i = omega arith in
      route_write-skip time (cmp ∷ soft ∷ []) (4 * i) bs s late
      ∙ route_write-skip cmp (soft ∷ []) (4 * i) bs s middle
      ∙ route_write-here soft [] (4 * i) bs s here even room
      ∙ ap (λ o. elim o as (λ x. Response Clint) [ none ↦ failure | some m ↦ ok m ])
          (post_write_msip-aligned n i
            (record s { msip = words_of 4 (store (4 * i - 0) bs (bytes_of 4 s.msip)) }) h)
      ∙ ap (λ a. ok (raised i (record s { msip = words_of 4 (store a bs (bytes_of 4 s.msip)) })))
          start

  -- On a platform of fewer than 4096 harts, a word of 32 bits that is written to the software
  -- register of one of them over the bus is accepted, and makes the pin of that hart's software
  -- interrupt the lowest bit of the word; the other harts stay as they are.
  pub transport_write-software_pin :
      (i v : ℕ) (s : Clint)
      → i < n
      → n < 4096
      → v < 2 ^ 32
      → (t : Clint) × (transport_write n notify now delay (4 * i) (to_bytes 4 v) s ≡ ok t)
        × (software_pin (t.target_harts i) ≡ v % 2)
        × ((k : ℕ) → k ≢ i → t.target_harts k ≡ s.target_harts k)
  transport_write-software_pin i v s h small fit = (
    raised i (stored_msip i (to_bytes 4 v) s),
    transport_write-msip i (to_bytes 4 v) s h small (length-to_bytes 4 v),
    raised-pin i (stored_msip i (to_bytes 4 v) s) ∙ ap (λ w. w % 2) (words-store i v s.msip fit),
    λ k ne. ground arith,
  )
