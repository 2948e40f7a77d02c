-- ===== src/Platform/Scan.antt =====
-- The loop by which both interrupt controllers look for the source of the highest priority, and what
-- it finds.
use dse_vp.Base.{
  ℕ, zero, suc, ◌+◌, ◌<◌, ◌≤◌, ◌≡◌, ◌⊎◌, inl, inr, Bool, true, ◌&&◌, ltb, if◌then◌else◌, arith,
  Bool-cases,
}
use native.Mathlib.Decide.{ℕ_discrete}

module _ (test : ℕ → Bool) (prio : ℕ → ℕ) where
  -- `left` more sources from `i` on, with the best id and priority so far.
  unfoldable pub scan : ℕ → ℕ → ℕ → ℕ → ℕ
  scan zero i id best = id
  scan (suc left) i id best =
      let better = test i && ltb best (prio i) in
      scan left (i + 1) (if better then i else id) (if better then prio i else best)

  -- `id` is the first of the sources below `n` that have the highest priority among those which pass
  -- the test, or 0 if none of these has a priority above 0.
  pub record IsBest (n id best : ℕ) : Type 0 where
    pub found :
        (id ≡ 0) × (best ≡ 0)
        ⊎ (1 ≤ id) × (id < n) × (test id ≡ true) × (prio id ≡ best) × (0 < best)
    pub highest : (j : ℕ) → 1 ≤ j → j < n → test j ≡ true → prio j ≤ best
    pub first : (j : ℕ) → 1 ≤ j → j < id → test j ≡ true → prio j < best

  IsBest-next :
      (i id best : ℕ)
      → 1 ≤ i
      → IsBest i id best
      → let better = test i && ltb best (prio i) in
        IsBest (i + 1) (if better then i else id) (if better then prio i else best)
  IsBest-next i id best pos b = record {
    found = elim (Bool-cases (test i && ltb best (prio i))) [
      | inl t ↦ rw t (inr (ground arith))
      | inr f ↦ rw f (ground (arith, b.found))
    ];
    highest = λ j p q t. elim (ℕ_discrete j i) [
      | yes e ↦ ground arith
      | no ne ↦ ground (arith, b.highest j p (omega arith) t)
    ];
    first = λ j p q t. elim (Bool-cases (test i && ltb best (prio i))) [
      | inl u ↦ ground (arith, b.highest j p (ground arith) t)
      | inr f ↦ ground (arith, b.first j p (ground arith) t)
    ];
  }

  pub scan-IsBest :
      (left i id best : ℕ)
      → 1 ≤ i
      → IsBest i id best
      → (top : ℕ) × IsBest (i + left) (scan left i id best) top
  unfolding scan
  scan-IsBest zero i id best pos b = (best, let e : i + 0 ≡ i = omega arith in rw e b)
  scan-IsBest (suc left) i id best pos b =
      let e : i + suc left ≡ i + 1 + left = omega arith in
      rw e (scan-IsBest left (i + 1) _ _ (omega arith) (IsBest-next i id best pos b))
