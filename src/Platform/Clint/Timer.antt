-- ===== src/Platform/Clint/Timer.antt =====
-- When the timer interrupts are raised.
use dse_vp.Base.{
  ℕ, zero, suc, ◌+◌, ◌-◌, ◌*◌, ◌/◌, ◌^◌, ◌≤◌, ◌<◌, ◌≡◌, ◌≢◌, ◌∙◌, sym, subst, ltb, ◌&&◌, ◌⊎◌, inl,
  inr, refl, Bool, true, false, Option, none, some, leb, ◌==◌, if◌then◌else◌, min, digit, arith,
  Bool-cases,
}
use dse_vp.Core.Trap.{Hart, trigger_timer_interrupt}
use dse_vp.Core.Trap.Pins.{assign_bit-digit}
use dse_vp.Platform.Clint.{
  Clint, scaler, update_and_get_mtime, delay_until, update_timer, update_timers, run,
}

-- A notification for the earlier time stays pending.
pub record IsEarliest (notify : Option ℕ → ℕ → Option ℕ) : Type 0 where
  pub first : (t : ℕ) → notify none t ≡ some t
  pub further : (u t : ℕ) → notify (some u) t ≡ some (min u t)

abbrev pub timer_pin : Hart → ℕ
timer_pin h = digit h.csrs.mip 7

pub timer_pin-trigger :
    (b : Bool) (h : Hart) → timer_pin (trigger_timer_interrupt b h) ≡ (if b then 1 else 0)
unfolding trigger_timer_interrupt
timer_pin-trigger b h = assign_bit-digit h.csrs.mip 7 7 b (omega arith) (omega arith)

-- A wakeup is pending for a time before `bound`.
pub record IsWoken (bound : ℕ) (e : Option ℕ) : Type 0 where
  pub at : ℕ
  pub is_pending : e ≡ some at
  pub before : at < bound

-- The timer of a hart whose comparison value is `cmp`, with the wakeup that is pending.
abbrev pub IsTimely : ℕ → ℕ → Hart → Option ℕ → Type 0
IsTimely now cmp h e =
    (cmp * scaler ≤ now) × (timer_pin h ≡ 1)
    ⊎ (now < cmp * scaler) × (timer_pin h ≡ 0) × IsWoken (cmp * scaler + scaler) e

module _ (notify : Option ℕ → ℕ → Option ℕ) (earliest : IsEarliest notify) where
  notify-IsWoken : (e : Option ℕ) (t bound : ℕ) → t < bound → IsWoken bound (notify e t)
  notify-IsWoken none t bound h = record { at = t; is_pending = earliest.first t; before = h }
  notify-IsWoken (some u) t bound h = record {
    at = min u t;
    is_pending = earliest.further u t;
    before = omega arith;
  }

  notify-keeps : (e : Option ℕ) (t bound : ℕ) → IsWoken bound e → IsWoken bound (notify e t)
  notify-keeps e t bound w = record {
    at = min w.at t;
    is_pending = rw w.is_pending (earliest.further w.at t);
    before = omega arith;
  }

  -- What a pass for hart `i` leaves for hart `j`.
  record Passes (j : ℕ) (s t : Clint) : Type 0 where
    same_mtime : t.mtime ≡ s.mtime
    same_cmp : (k : ℕ) → t.mtimecmp k ≡ s.mtimecmp k
    same_hart : t.target_harts j ≡ s.target_harts j
    woken : (bound : ℕ) → IsWoken bound s.irq_event → IsWoken bound t.irq_event

  update_timer-Passes : (now j i : ℕ) (s : Clint) → j ≢ i → Passes j s (update_timer notify now i s)
  unfolding update_timer
  update_timer-Passes now j i s h =
      elim (Bool-cases (ltb 0 (s.mtimecmp i) && leb (s.mtimecmp i) s.mtime)) [
        | inl e ↦ rw e (record {
          same_mtime = refl;
          same_cmp = λ k. refl;
          same_hart = ground arith;
          woken = λ b w. w;
        })
        | inr e ↦ elim (Bool-cases (ltb 0 (s.mtimecmp i) && ltb (s.mtimecmp i) (2 ^ 64 - 1))) [
          | inl f ↦
              rw (e, f)
                (record {
                  same_mtime = refl;
                  same_cmp = λ k. refl;
                  same_hart = ground arith;
                  woken = notify-keeps s.irq_event _;
                })
          | inr f ↦
              rw (e, f)
                (record {
                  same_mtime = refl;
                  same_cmp = λ k. refl;
                  same_hart = ground arith;
                  woken = λ b w. w;
                })
        ]
      ]

  update_timers-Passes :
      (now j left i : ℕ) (s : Clint) → j < i → Passes j s (update_timers notify now left i s)
  unfolding update_timers
  update_timers-Passes now j zero i s h = record {
    same_mtime = refl;
    same_cmp = λ k. refl;
    same_hart = refl;
    woken = λ b w. w;
  }
  update_timers-Passes now j (suc left) i s h =
      let here = update_timer-Passes now j i s (λ e. ground arith) in
      let rest =
        update_timers-Passes now j left (i + 1) (update_timer notify now i s) (omega arith) in
      record {
        same_mtime = rest.same_mtime ∙ here.same_mtime;
        same_cmp = λ k. rest.same_cmp k ∙ here.same_cmp k;
        same_hart = rest.same_hart ∙ here.same_hart;
        woken = λ b w. rest.woken b (here.woken b w);
      }

  delay_until-goal :
      (now cmp : ℕ)
      → cmp * scaler < 2 ^ 64
      → now < cmp * scaler
      → now + delay_until cmp (now / scaler) < cmp * scaler + scaler
  delay_until-goal now cmp h f = omega arith

  update_timer-IsTimely :
      (now i : ℕ) (s : Clint)
      → s.mtime ≡ now / scaler
      → 0 < s.mtimecmp i
      → s.mtimecmp i * scaler < 2 ^ 64
      → let t = update_timer notify now i s in
        IsTimely now (s.mtimecmp i) (t.target_harts i) t.irq_event
  unfolding update_timer
  update_timer-IsTimely now i s m p h = elim (Bool-cases (leb (s.mtimecmp i) s.mtime)) [
    | inl e ↦ inl (ground arith, ground (arith, timer_pin-trigger true (s.target_harts i)))
    | inr e ↦ inr (
      ground arith,
      ground (arith, timer_pin-trigger false (s.target_harts i)),
      (let late : (ltb 0 (s.mtimecmp i) && leb (s.mtimecmp i) s.mtime) ≡ false = ground arith in
          let finite : (ltb 0 (s.mtimecmp i) && ltb (s.mtimecmp i) (2 ^ 64 - 1)) ≡ true =
            ground arith in
          rw (late, finite)
            (notify-IsWoken s.irq_event _ _
              (rw m (delay_until-goal now (s.mtimecmp i) h (ground arith))))),
    )
  ]

  IsTimely-after :
      (now cmp j : ℕ) (s t : Clint)
      → Passes j s t
      → IsTimely now cmp (s.target_harts j) s.irq_event
      → IsTimely now cmp (t.target_harts j) t.irq_event
  IsTimely-after now cmp j s t q (inl (due, up)) = inl (due, rw q.same_hart up)
  IsTimely-after now cmp j s t q (inr (early, down, w)) =
      inr (early, rw q.same_hart down, q.woken (cmp * scaler + scaler) w)

  update_timers-IsTimely :
      (now j left i : ℕ) (s : Clint)
      → s.mtime ≡ now / scaler
      → 0 < s.mtimecmp j
      → s.mtimecmp j * scaler < 2 ^ 64
      → i ≤ j
      → j < i + left
      → let t = update_timers notify now left i s in
        IsTimely now (s.mtimecmp j) (t.target_harts j) t.irq_event
  unfolding update_timers
  update_timers-IsTimely now j zero i s m p h low high = absurd (omega arith)
  update_timers-IsTimely now j (suc left) i s m p h low high =
      let here = update_timer notify now i s in
      let after = update_timers notify now left (i + 1) here in
      elim (Bool-cases (j == i)) [
        | inl e ↦
            let same : j ≡ i = ground arith in
            IsTimely-after now (s.mtimecmp j) j here after
              (update_timers-Passes now j left (i + 1) here (omega arith))
              (subst (λ k. IsTimely now (s.mtimecmp k) (here.target_harts k) here.irq_event)
                (sym same)
                (update_timer-IsTimely now i s m (subst (λ k. 0 < s.mtimecmp k) same p)
                  (subst (λ k. s.mtimecmp k * scaler < 2 ^ 64) same h)))
        | inr e ↦
            let other : j ≢ i = λ f. ground arith in
            let q = update_timer-Passes now j i s other in
            subst (λ c. IsTimely now c (after.target_harts j) after.irq_event) (q.same_cmp j)
              (update_timers-IsTimely now j left (i + 1) here (q.same_mtime ∙ m)
                (rw (q.same_cmp j) p) (rw (q.same_cmp j) h) (ground arith) (omega arith))
      ]

  -- After a wakeup of the thread at `now`, with `mtime` not ahead of the time: a hart whose comparison
  -- value is reached has its timer interrupt pending; for any other the interrupt is not pending and
  -- the thread is woken again before the next microsecond after that value. The value is not 0
  -- and its time fits in 64 bits. A notification for an earlier time than the one pending replaces it.
  pub run-IsTimely :
      (n now j : ℕ) (s : Clint)
      → j < n
      → s.mtime ≤ now / scaler
      → 0 < s.mtimecmp j
      → s.mtimecmp j * scaler < 2 ^ 64
      → let t = run notify n now s in IsTimely now (s.mtimecmp j) (t.target_harts j) t.irq_event
  unfolding run update_and_get_mtime
  run-IsTimely n now j s h behind p fits =
      let begun = record s { irq_event = none } in
      let current = update_and_get_mtime now begun in
      let m : current.mtime ≡ now / scaler = ground arith in
      let same : current.mtimecmp j ≡ s.mtimecmp j = ground arith in
      let t = update_timers notify now n 0 current in
      subst (λ c. IsTimely now c (t.target_harts j) t.irq_event) same
        (update_timers-IsTimely now j n 0 current m (rw same p) (rw same fits) (omega arith)
          (omega arith))
