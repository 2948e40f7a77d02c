-- ===== src/Core/Timing/Cache.antt =====
-- The timing of the instruction cache, `InstrMemoryProxyWithHiFive1CacheTiming` of
-- vp/src/core/rv32/timing.h: 512 lines of two entries, of which the last used one is kept. `random`
-- is the result of `rand()`.
use dse_vp.Base.{
  ℕ, ◌+◌, ◌*◌, ◌/◌, ◌%◌, ◌^◌, ◌≡◌, refl, Bool, true, false, not, Option, some, arith, bit_and,
  not32, ◌==◌, ==_self, subst, sym, ◌⊎◌, if◌then◌else◌, Bool-cases, inl, inr,
}
use dse_vp.Core.Timing.{◌>>=◌, Pipeline, stall}
use dse_vp.Core.Timing.Hazards.{IsTimed, stall-total}

pub record CacheLine : Type 0 where
  pub first : ℕ
  pub second : ℕ
  pub stat : Bool

pub record Cache : Type 0 where
  pub pipeline : Pipeline
  pub lines : ℕ → CacheLine

unfoldable pub tag : ℕ → ℕ
tag pc = bit_and pc (511 * 2 ^ 5) / 2 ^ 5

unfoldable pub head : ℕ → ℕ
head pc = bit_and pc (not32 16383)

-- A cache miss: the entry that was not used last is replaced.
abbrev replaced : ℕ → CacheLine → CacheLine
replaced h l =
    if l.stat
    then record { first = l.first; second = h; stat = not l.stat }
    else record { first = h; second = l.second; stat = not l.stat }

abbrev set_line : ℕ → CacheLine → Cache → Cache
set_line k l c = record c { lines = λ n. if n == k then l else c.lines n }

unfoldable pub update_timing_model : ℕ → ℕ → Cache → Option Cache
update_timing_model random pc c =
    let l = c.lines (tag pc) in
    let h = head pc in
    if l.first == h
    then some (set_line (tag pc) (record l { stat = true }) c)
    else if l.second == h
    then some (set_line (tag pc) (record l { stat = false }) c)
    else stall (random % 200 + 4520) c.pipeline >>= λ p.
        some (set_line (tag pc) (replaced h l) (record c { pipeline = p }))

-- The entry of an address is the one that was used last.
abbrev Recent : ℕ → CacheLine → Type 0
Recent h l = (h ≡ (if l.stat then l.first else l.second))

-- The entry of an address is there.
abbrev Present : ℕ → CacheLine → Type 0
Present h l = (l.first ≡ h) ⊎ (l.second ≡ h)

Recent-Present : (h : ℕ) (l : CacheLine) → Recent h l → Present h l
Recent-Present h l r = ground arith

access :
    (random pc : ℕ) (c : Cache)
    → IsTimed c.pipeline
    → (d : Cache) × (update_timing_model random pc c ≡ some d)
      × IsTimed d.pipeline
      × Recent (head pc) (d.lines (tag pc))
      × ((h : ℕ) → Recent h (c.lines (tag pc)) → Present h (d.lines (tag pc)))
      × (Present (head pc) (c.lines (tag pc)) → d.pipeline ≡ c.pipeline)
unfolding update_timing_model
access random pc c t =
    let l = c.lines (tag pc) in
    let h = head pc in
    let (p, e, timed, free, m, v) = stall-total (random % 200 + 4520) c.pipeline t (omega arith) in
    let self = ==_self (tag pc) in
    elim (Bool-cases (l.first == h)) [
      | inl q ↦ (
        set_line (tag pc) (record l { stat = true }) c,
        rw q refl,
        t,
        ground arith,
        λ g r. ground arith,
        λ r. refl,
      )
      | inr q ↦ elim (Bool-cases (l.second == h)) [
        | inl k ↦ (
          set_line (tag pc) (record l { stat = false }) c,
          rw (q, k) refl,
          t,
          ground arith,
          λ g r. ground arith,
          λ r. refl,
        )
        | inr k ↦ (
          set_line (tag pc) (replaced h l) (record c { pipeline = p }),
          rw (q, k, e) refl,
          timed,
          ground arith,
          λ g r. ground arith,
          λ r. absurd (ground arith),
        )
      ]
    ]

-- The two addresses of instructions that were fetched last stay in their cache line: after fetches at
-- `a` and then `b` of the same line, a further fetch at `a`, and one at `b`, leaves the pipeline as
-- it is. No assertion fails, and the random delays do not matter.
two_recent-hit :
    (r q s a b : ℕ) (c : Cache)
    → IsTimed c.pipeline
    → tag a ≡ tag b
    → (d : Cache) × (e : Cache) × (f : Cache) × (g : Cache) × (update_timing_model r a c ≡ some d)
      × (update_timing_model q b d ≡ some e)
      × (update_timing_model s a e ≡ some f)
      × (f.pipeline ≡ e.pipeline)
      × (update_timing_model s b e ≡ some g)
      × (g.pipeline ≡ e.pipeline)
two_recent-hit r q s a b c t same =
    let (d, de, dt, recent, old, hit) = access r a c t in
    let (e, ee, et, recent_b, old_b, hit_b) = access q b d dt in
    let (f, fe, ft, recent_f, old_f, hit_f) = access s a e et in
    let (g, ge, gt, recent_g, old_g, hit_g) = access s b e et in
    let kept : Present (head a) (e.lines (tag b)) =
      old_b (head a) (subst (λ k. Recent (head a) (d.lines k)) same recent) in
    (
      d,
      e,
      f,
      g,
      de,
      ee,
      fe,
      hit_f (subst (λ k. Present (head a) (e.lines k)) (sym same) kept),
      ge,
      hit_g (Recent-Present (head b) (e.lines (tag b)) recent_b),
    )
