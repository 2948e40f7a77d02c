-- ===== src/Platform/Dma/Copy.antt =====
-- What the controller copies.
use dse_vp.Base.{
  ℕ, zero, suc, ◌+◌, ◌-◌, ◌/◌, ◌^◌, ◌≤◌, ◌<◌, ◌≡◌, ◌⊎◌, inl, inr, Option, refl, ap, ap₂, ◌∙◌, subst,
  some, length, ltb, true, false, arith, add32, Bool-cases, if◌then◌else◌, leb, ◌&&◌,
}
use dse_vp.Tlm.{Target, ok}
use dse_vp.Tlm.Bytes.{load, store, length-load, get_or-load, load-store}
use dse_vp.Tlm.Memory.{IsMemory}
use dse_vp.Platform.Dma.{Dma, fetched, stored, write_block, copy_block, copy_blocks, perform_memcpy}

store-load :
    (src dst n k : ℕ) (m : ℕ → ℕ)
    → store dst (load n src m) m k
      ≡ (if leb dst k && ltb k (dst + n) then m (src + (k - dst)) else m k)
unfolding store
store-load src dst n k m =
    rw (length-load n src m) (elim (Bool-cases (leb dst k && ltb k (dst + n))) [
      | inl e ↦ rw e (get_or-load n src (k - dst) m (ground arith))
      | inr e ↦ rw e refl
    ])

-- The registers are as before.
record SameRegisters (d d' : Dma) : Type 0 where
  same_src : d'.src ≡ d.src
  same_dst : d'.dst ≡ d.dst

same_trans : {d d' d'' : Dma} → SameRegisters d d' → SameRegisters d' d'' → SameRegisters d d''
same_trans p q = record { same_src = q.same_src ∙ p.same_src; same_dst = q.same_dst ∙ p.same_dst }

module _ {M : Type 0} (isock : Target M) (bytes : M → ℕ → ℕ) (low high : ℕ)
    (memory : IsMemory isock bytes low high) (top : high ≤ 2 ^ 32) where
  -- The bytes of `m` with `n` bytes from `src` on copied to `dst`.
  abbrev Copied : ℕ → ℕ → ℕ → (ℕ → ℕ) → (ℕ → ℕ) → Type 0
  Copied src dst n m m' =
      (k : ℕ)
      → low ≤ k
      → k < high
      → m' k ≡ (if leb dst k && ltb k (dst + n) then m (src + (k - dst)) else m k)

  copy_block-copies :
      (off n : ℕ) (d : Dma) (m : M)
      → low ≤ d.src
      → low ≤ d.dst
      → 0 < n
      → d.src + off + n ≤ high
      → d.dst + off + n ≤ high
      → (d' : Dma) × (m' : M) × (copy_block isock off n d m ≡ some (d', m'))
        × SameRegisters d d'
        × Copied (d.src + off) (d.dst + off) n (bytes m) (bytes m')
  unfolding copy_block
  copy_block-copies off n d m ls ld pos hs hd =
      let from : add32 d.src off ≡ d.src + off = omega arith in
      let to : add32 d.dst off ≡ d.dst + off = omega arith in
      let block = load n (d.src + off) (bytes m) in
      let full : length block ≡ n = length-load n (d.src + off) (bytes m) in
      let d' = record d { buffer = store 0 block d.buffer } in
      let kept : load n 0 (store 0 block d.buffer) ≡ block =
        subst (λ j. load j 0 (store 0 block d.buffer) ≡ block) full (load-store 0 block d.buffer) in
      let got : isock.read (add32 d.src off) n m ≡ ok (block, m) =
        ap (λ a. isock.read a n m) from
        ∙ memory.reads (d.src + off) n m (omega arith) (omega arith) (omega arith) in
      let (m', e, f) =
        memory.writes (d.dst + off) block m (omega arith) (omega arith) (omega (arith, full)) in
      let put : isock.write (add32 d.dst off) (load n 0 (store 0 block d.buffer)) m ≡ ok m' =
        ap₂ (λ a bs. isock.write a bs m) to kept ∙ e in
      (
        d',
        m',
        ap (λ r. write_block isock off n (fetched isock d m r)) got ∙ ap (stored isock d' m) put,
        record { same_src = refl; same_dst = refl },
        λ k l h. f k l h ∙ store-load (d.src + off) (d.dst + off) n k (bytes m),
      )

  -- Blocks of a range that does not meet the one that is copied to, one after another.
  join-Copied :
      (src dst c n : ℕ) (m m' m'' : ℕ → ℕ)
      → (src + c + n ≤ dst) ⊎ (dst + c + n ≤ src)
      → low ≤ src
      → src + c + n ≤ high
      → Copied src dst c m m'
      → Copied (src + c) (dst + c) n m' m''
      → Copied src dst (c + n) m m''
  join-Copied src dst c n m m' m'' apart ls hs f g k l h =
      elim (Bool-cases (leb (dst + c) k && ltb k (dst + c + n))) [
        | inl e ↦
            let same : src + c + (k - (dst + c)) ≡ src + (k - dst) = ground arith in
            g k l h
            ∙ rw e (
                f (src + c + (k - (dst + c))) (omega arith) (ground arith)
                ∙ (rw same (ground arith)))
        | inr e ↦ g k l h ∙ rw e (f k l h ∙ ground arith)
      ]

  copy_blocks-last :
      (fuel off n : ℕ) (d : Dma) (m : M)
      → ltb 64 n ≡ false
      → copy_blocks isock (suc fuel) off n d m ≡ copy_block isock off n d m
  unfolding copy_blocks
  copy_blocks-last fuel off n d m e = rw (copy_blocks, e) refl

  copy_blocks-more :
      (fuel off n : ℕ) (d d' : Dma) (m m' : M) (r : Option (Dma × M))
      → ltb 64 n ≡ true
      → add32 off 64 ≡ off + 64
      → copy_block isock off 64 d m ≡ some (d', m')
      → copy_blocks isock fuel (off + 64) (n - 64) d' m' ≡ r
      → copy_blocks isock (suc fuel) off n d m ≡ r
  unfolding copy_blocks
  copy_blocks-more fuel off n d d' m m' r e next f g =
      rw (copy_blocks, e, f) (ap (λ o. copy_blocks isock fuel o (n - 64) d' m') next ∙ g)

  copy_blocks-copies :
      (fuel off n : ℕ) (d : Dma) (m : M)
      → n / 64 < fuel
      → (d.src + off + n ≤ d.dst + off) ⊎ (d.dst + off + n ≤ d.src + off)
      → low ≤ d.src
      → low ≤ d.dst
      → 0 < n
      → d.src + off + n ≤ high
      → d.dst + off + n ≤ high
      → (d' : Dma) × (m' : M) × (copy_blocks isock fuel off n d m ≡ some (d', m'))
        × SameRegisters d d'
        × Copied (d.src + off) (d.dst + off) n (bytes m) (bytes m')
  copy_blocks-copies zero off n d m enough apart ls ld pos hs hd = absurd (omega arith)
  copy_blocks-copies (suc fuel) off n d m enough apart ls ld pos hs hd =
      elim (Bool-cases (ltb 64 n)) [
        | inr e ↦
            let (d', m', f, same, block) = copy_block-copies off n d m ls ld pos hs hd in
            (d', m', copy_blocks-last fuel off n d m e ∙ f, same, block)
        | inl e ↦
            let (d', m', f, same, block) =
              copy_block-copies off 64 d m ls ld (omega arith) (ground arith) (ground arith) in
            let next : add32 off 64 ≡ off + 64 = ground arith in
            let (d'', m'', g, same', rest) =
              copy_blocks-copies fuel (off + 64) (n - 64) d' m' (ground arith)
                (ground (arith, same.same_src, same.same_dst)) (rw same.same_src ls)
                (rw same.same_dst ld) (ground arith) (ground (arith, same.same_src))
                (ground (arith, same.same_dst)) in
            let from : d'.src + (off + 64) ≡ d.src + off + 64 = omega (arith, same.same_src) in
            let to : d'.dst + (off + 64) ≡ d.dst + off + 64 = omega (arith, same.same_dst) in
            let whole : 64 + (n - 64) ≡ n = ground arith in
            (
              d'',
              m'',
              copy_blocks-more fuel off n d d' m m' (some (d'', m'')) e next f g,
              same_trans same same',
              subst (λ j. Copied (d.src + off) (d.dst + off) j (bytes m) (bytes m'')) whole
                  (join-Copied (d.src + off) (d.dst + off) 64 (n - 64) (bytes m) (bytes m')
                    (bytes m'') (ground arith) (omega arith) (ground arith) block
                    (subst (λ a. Copied a (d.dst + off + 64) (n - 64) (bytes m') (bytes m'')) from
                      (subst (λ b. Copied (d'.src + (off + 64)) b (n - 64) (bytes m') (bytes m''))
                        to rest))),
            )
      ]

  -- A copy between two ranges of memory that do not meet ends, whatever the length, with the bytes
  -- of the source at the destination and every other byte of the memory as it was. The length is
  -- not 0, and the memory, in which both ranges lie, ends at 2 ^ 32 at most.
  pub perform_memcpy-copies :
      (d : Dma) (m : M)
      → (d.src + d.len ≤ d.dst) ⊎ (d.dst + d.len ≤ d.src)
      → low ≤ d.src
      → low ≤ d.dst
      → 0 < d.len
      → d.src + d.len ≤ high
      → d.dst + d.len ≤ high
      → (d' : Dma) × (m' : M) × (perform_memcpy isock d m ≡ some (d', m'))
        × ((k : ℕ)
            → low ≤ k
            → k < high
            → bytes m' k ≡ (
                if leb d.dst k && ltb k (d.dst + d.len)
                then bytes m (d.src + (k - d.dst))
                else bytes m k))
  unfolding perform_memcpy
  perform_memcpy-copies d m apart ls ld pos hs hd =
      let (d', m', e, same, copied) =
        copy_blocks-copies (d.len / 64 + 1) 0 d.len d m (omega arith) (ground arith) ls ld pos
          (omega arith) (omega arith) in
      let from : d.src + 0 ≡ d.src = omega arith in
      let to : d.dst + 0 ≡ d.dst = omega arith in
      (
        d',
        m',
        e,
        subst (λ a. Copied a d.dst d.len (bytes m) (bytes m')) from
            (subst (λ b. Copied (d.src + 0) b d.len (bytes m) (bytes m')) to copied),
      )
