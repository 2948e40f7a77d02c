-- ===== src/Crypto/Sm3/Builds.antt =====
-- The builds of the accelerator against each other.
use dse_vp.Base.{
  ℕ, zero, suc, ◌<◌, ◌≤◌, ◌≡◌, inl, inr, refl, sym, ap, ◌∙◌, ltb, true, false, ◌==◌, if◌then◌else◌,
  arith, Bool-cases,
}
use dse_vp.Crypto.Sm3.{
  Sm3, Pins, sm3_hash, expand_step, mix_step, compress_step, put_out, clock_ac, activate_ap,
  expand_loop, mix_loop, compress_loop,
}
use dse_vp.Crypto.Sm3.Clocks.{
  clocks, start, at, load-expand_loop, expand_step-more, expand_step-done, mix_step-more,
  compress_step-more,
}

module _ (message : ℕ) (s : Sm3) where
  -- The words that are expanded after `n` clocks.
  abbrev cap : ℕ → ℕ
  cap n = if ltb n 52 then n else 52

  expand_step-cap :
      (n : ℕ) → expand_step (at message s (cap n) n n) ≡ at message s (cap (suc n)) n n
  expand_step-cap n = elim (Bool-cases (ltb n 52)) [
    | inl e ↦
        let here : cap n ≡ n = rw e refl in
        let next : cap (suc n) ≡ suc n = ground arith in
        ap (λ k. expand_step (at message s k n n)) here
        ∙ expand_step-more message s n n n (ground arith)
        ∙ ap (λ k. at message s k n n) (sym next)
    | inr e ↦
        let here : cap n ≡ 52 = rw e refl in
        let next : cap (suc n) ≡ 52 = ground arith in
        ap (λ k. expand_step (at message s k n n)) here
        ∙ expand_step-done message s n n
        ∙ ap (λ k. at message s k n n) (sym next)
  ]

  -- One enabled clock.
  clock-at :
      (n : ℕ)
      → n < 64
      → clock_ac message (at message s (cap n) n n) ≡ at message s (cap (suc n)) (suc n) (suc n)
  unfolding clock_ac
  clock-at n h =
      ap
        (λ w.
          compress_step (mix_step (expand_step (record (at message s (cap n) n n) { w68 = w }))))
        (load-expand_loop message s.w68 (cap n))
      ∙ ap (λ t. compress_step (mix_step t)) (expand_step-cap n)
      ∙ ap compress_step (mix_step-more message s (cap (suc n)) n n (ground arith) h (ground arith))
      ∙ compress_step-more message s (cap (suc n)) (suc n) n (ground arith) (omega arith)
          (omega arith) (ground arith)

  clocks-at :
      (n : ℕ)
      → n < 64
      → clocks (suc n) message (at message s 0 0 0) ≡ at message s (cap (suc n)) (suc n) (suc n)
  unfolding clocks
  clocks-at zero h = clock-at 0 h
  clocks-at (suc n) h = ap (clock_ac message) (clocks-at n (omega arith)) ∙ clock-at (suc n) h

  module _ (c : s.cf_count ≡ 0) (m : s.w64_count ≡ 0) (e : s.w68_count ≡ 16) where
    begun : record s { w68 = start message s } ≡ at message s 0 0 0
    unfolding expand_loop mix_loop compress_loop
    begun =
        λ k. record s { w68 = start message s; w68_count = e k; w64_count = m k; cf_count = c k }

    clocks-begun : (n : ℕ) → clocks (suc n) message s ≡ clocks (suc n) message (at message s 0 0 0)
    unfolding clocks clock_ac
    clocks-begun zero =
        ap (λ t. compress_step (mix_step (expand_step t))) begun
        ∙ ap (λ w. compress_step (mix_step (expand_step (record (at message s 0 0 0) { w68 = w }))))
            (sym (load-expand_loop message s.w68 0))
    clocks-begun (suc n) = ap (clock_ac message) (clocks-begun n)

    pub clocks-opt : (n : ℕ) → n < 64 → (clocks (suc n) message s).opt ≡ s.opt
    clocks-opt n h = ap (λ t. t.opt) (clocks-begun n ∙ clocks-at n h)

    pub clocks-activate :
        clocks 65 message s
        ≡ record (activate_ap message s) { cf_count = 0; w64_count = 0; w68_count = 16 }
    unfolding clocks clock_ac activate_ap compress_step expand_step mix_step put_out
    clocks-activate =
        ap (clock_ac message) (clocks-begun 63 ∙ clocks-at 63 (omega arith))
        ∙ ap
            (λ w.
              compress_step (mix_step (expand_step (record (at message s 52 64 64) { w68 = w }))))
            (load-expand_loop message s.w68 52)

-- The state after `n` activations with the same pins.
unfoldable pub activations : (ℕ → Sm3 → Sm3) → Pins → ℕ → Sm3 → Sm3
activations activate p zero s = s
activations activate p (suc n) s = sm3_hash activate p (activations activate p n s)

module _ (p : Pins) (s : Sm3) (up : p.rst_in ≡ true) (kept : (p.sm3_rst_in == 1) ≡ false)
    (low : p.sm3_opt_in ≡ 0) where
  sm3_hash-on : (f : ℕ → Sm3 → Sm3) (t : Sm3) → t.opt ≡ 1 → sm3_hash f p t ≡ f p.message_in t
  unfolding sm3_hash
  sm3_hash-on f t on = rw (up, kept, low, on) refl

  sm3_hash-off : (f : ℕ → Sm3 → Sm3) (t : Sm3) → t.opt ≡ 0 → sm3_hash f p t ≡ t
  unfolding sm3_hash
  sm3_hash-off f t off = rw (up, kept, low, off) refl

  activations-off : (f : ℕ → Sm3 → Sm3) (n : ℕ) (t : Sm3) → t.opt ≡ 0 → activations f p n t ≡ t
  unfolding activations
  activations-off f zero t off = refl
  activations-off f (suc n) t off =
      ap (sm3_hash f p) (activations-off f n t off) ∙ sm3_hash-off f t off

  module _ (on : s.opt ≡ 1) (c : s.cf_count ≡ 0) (m : s.w64_count ≡ 0) (e : s.w68_count ≡ 16) where
    activations-clocks :
        (n : ℕ) → n ≤ 64 → activations clock_ac p (suc n) s ≡ clocks (suc n) p.message_in s
    unfolding activations clocks
    activations-clocks zero h = sm3_hash-on clock_ac s on
    activations-clocks (suc n) h =
        ap (sm3_hash clock_ac p) (activations-clocks n (omega arith))
        ∙ sm3_hash-on clock_ac (clocks (suc n) p.message_in s)
            (clocks-opt p.message_in s c m e n (omega arith) ∙ on)

    -- Once started, from the counts that a reset leaves, out of reset and with the start pin low, the
    -- build with one round in each clock gets in 65 clocks to the state that the other builds
    -- reach in one activation, but for the counts, which it sets back; so the value that is put out is the same.
    pub activations-builds :
        activations clock_ac p 65 s
        ≡ record (sm3_hash activate_ap p s) { cf_count = 0; w64_count = 0; w68_count = 16 }
    activations-builds =
        activations-clocks 64 (omega arith)
        ∙ clocks-activate p.message_in s c m e
        ∙ ap (λ (t : Sm3). record t { cf_count = 0; w64_count = 0; w68_count = 16 })
            (sym (sm3_hash-on activate_ap s on))
