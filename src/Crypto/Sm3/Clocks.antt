-- ===== src/Crypto/Sm3/Clocks.antt =====
-- The clocks of the build `USING_SM3_AC`, one after another.
use dse_vp.Base.{
  ℕ, zero, suc, ◌+◌, ◌-◌, ◌<◌, ◌≤◌, ◌≡◌, inl, inr, refl, sym, ap, ap₂, fun_ext, ◌∙◌, true, ◌&&◌,
  ltb, leb, bit_xor, arith, Bool-cases,
}
use dse_vp.Crypto.Sm3.{
  Sm3, update, load_message, round, expand_step, mix_step, compress_step, clock_ac, expand_loop,
  mix_loop, compress_loop,
}

-- The state after `n` clocks.
unfoldable pub clocks : ℕ → ℕ → Sm3 → Sm3
clocks zero message s = s
clocks (suc n) message s = clock_ac message (clocks n message s)

module _ (message : ℕ) (w : ℕ → ℕ) where
  abbrev loaded : ℕ → ℕ
  loaded = load_message message w

  -- The loop writes no word of the message.
  expand_loop-loaded : (k j : ℕ) → j < 16 → expand_loop k loaded j ≡ loaded j
  unfolding expand_loop
  expand_loop-loaded zero j h = refl
  expand_loop-loaded (suc k) j h = ground (arith, expand_loop-loaded k j h)

  pub load-expand_loop :
      (k : ℕ) → load_message message (expand_loop k loaded) ≡ expand_loop k loaded
  load-expand_loop k = fun_ext (λ j. elim (Bool-cases (ltb j 16)) [
    | inl e ↦ rw e (sym (expand_loop-loaded k j (ground arith) ∙ rw e refl))
    | inr e ↦ rw e refl
  ])

  -- A word is final once the loop has passed it.
  pub expand_loop-settled :
      (m k j : ℕ) → j < 16 + k → expand_loop (m + k) loaded j ≡ expand_loop k loaded j
  unfolding expand_loop
  expand_loop-settled zero k j h = ap (λ i. expand_loop i loaded j) (omega arith)
  expand_loop-settled (suc m) k j h =
      ap (λ i. expand_loop i loaded j) {x = suc m + k} {y = suc (m + k)} (omega arith)
      ∙ ground (arith, expand_loop-settled m k j h)

pub mix_loop-settled :
    (w68 w : ℕ → ℕ) (m k j : ℕ) → j < k → mix_loop (m + k) w68 w j ≡ mix_loop k w68 w j
unfolding mix_loop
mix_loop-settled w68 w zero k j h = ap (λ i. mix_loop i w68 w j) (omega arith)
mix_loop-settled w68 w (suc m) k j h =
    ap (λ i. mix_loop i w68 w j) {x = suc m + k} {y = suc (m + k)} (omega arith)
    ∙ ground (arith, mix_loop-settled w68 w m k j h)

module _ (message : ℕ) (s : Sm3) where
  abbrev pub start : ℕ → ℕ
  start = load_message message s.w68

  abbrev pub words : ℕ → ℕ
  words = expand_loop 52 start

  abbrev pub mixed : ℕ → ℕ
  mixed = mix_loop 64 words s.w64

  -- The state with `k` words expanded, `j` mixed and `i` rounds done.
  abbrev pub at : ℕ → ℕ → ℕ → Sm3
  at k j i = record s {
    w68 = expand_loop k start;
    w68_count = 16 + k;
    w64 = mix_loop j words s.w64;
    w64_count = j;
    v_buf = compress_loop i s.t words mixed s.v_buf;
    cf_count = i;
  }

  words-settled : (k j : ℕ) → k ≤ 52 → j < 16 + k → expand_loop k start j ≡ words j
  words-settled k j h l =
      sym (expand_loop-settled message s.w68 (52 - k) k j l)
      ∙ ap (λ i. expand_loop i start j) {x = 52 - k + k} {y = 52} (omega arith)

  mixed-settled : (k j : ℕ) → k ≤ 64 → j < k → mix_loop k words s.w64 j ≡ mixed j
  mixed-settled k j h l =
      sym (mix_loop-settled words s.w64 (64 - k) k j l)
      ∙ ap (λ i. mix_loop i words s.w64 j) {x = 64 - k + k} {y = 64} (omega arith)

  pub expand_step-more : (k j i : ℕ) → k < 52 → expand_step (at k j i) ≡ at (suc k) j i
  unfolding expand_step expand_loop
  expand_step-more k j i h =
      let more : (leb 16 (16 + k) && leb (16 + k) 67) ≡ true = ground arith in
      let next : 16 + k + 1 ≡ 16 + suc k = omega arith in
      rw more (ap (λ c. record (at (suc k) j i) { w68_count = c }) next)

  pub expand_step-done : (j i : ℕ) → expand_step (at 52 j i) ≡ at 52 j i
  unfolding expand_step
  expand_step-done j i = refl

  pub mix_step-more :
      (k j i : ℕ) → k ≤ 52 → j < 64 → j + 4 < 16 + k → mix_step (at k j i) ≡ at k (suc j) i
  unfolding mix_step mix_loop
  mix_step-more k j i h l near =
      let more : leb j 63 ≡ true = ground arith in
      let next : j + 1 ≡ suc j = omega arith in
      rw more (
        ap₂ (λ c x. record (at k j i) { w64 = update (mix_loop j words s.w64) j x; w64_count = c })
          next (ap₂ bit_xor (words-settled k j h (omega arith)) (words-settled k (j + 4) h near)))

  pub compress_step-more :
      (k j i : ℕ) → k ≤ 52 → j ≤ 64 → i < j → i < 16 + k → compress_step (at k j i) ≡ at k j (suc i)
  unfolding compress_step compress_loop
  compress_step-more k j i h l before near =
      let more : leb i 63 ≡ true = ground arith in
      let next : i + 1 ≡ suc i = omega arith in
      rw more (
        ap₂ (λ c r. record (at k j i) { v_buf = r; cf_count = c }) next
          (ap₂ (λ x y. round (s.t i) x y i (compress_loop i s.t words mixed s.v_buf))
            (words-settled k i h near) (mixed-settled j i l before)))
