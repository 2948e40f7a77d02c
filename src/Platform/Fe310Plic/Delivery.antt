-- ===== src/Platform/Fe310Plic/Delivery.antt =====
-- How interrupts reach the harts: the thread `run` and the completion register.
use dse_vp.Base.{
  ℕ, zero, suc, ◌+◌, ◌<◌, ◌≤◌, ◌≡◌, inl, inr, refl, subst, Bool, true, false, ◌&&◌, ◌||◌, not, none,
  some, arith, ltb, if◌then◌else◌, ◌∙◌, Bool-cases,
}
use dse_vp.Core.Trap.{machine_mode}
use dse_vp.Core.Trap.Pins.{external_pin, trigger_external-pin, clear_external-pin}
use dse_vp.Platform.IrqBits.{test_irq, set_irq, test-set}
use dse_vp.Platform.Fe310Plic.{
  Config, Fe310Plic, hart_has_pending_enabled_interrupts, hart_get_next_pending_interrupt,
  gateway_trigger_interrupt, is_candidate, post_write_hart_config, set_eip, wake_hart, wake_from,
  run,
}
use dse_vp.Platform.Fe310Plic.Claims.{scan-IsNext}

-- Every hart for which an interrupt is pending has been told.
abbrev pub IsSettled : Config → Fe310Plic → Type 0
IsSettled c p =
    (i : ℕ)
    → i < c.number_cores
    → hart_has_pending_enabled_interrupts c p i ≡ true
    → p.hart_eip i ≡ true

-- The harts' pins agree with `hart_eip`.
abbrev pub IsPinned : Fe310Plic → Type 0
IsPinned p =
    (p.irq_level ≡ machine_mode)
    × ((i : ℕ) → external_pin (p.target_harts i) ≡ (if p.hart_eip i then 1 else 0))

set_eip-IsPinned : (i : ℕ) (b : Bool) (p : Fe310Plic) → IsPinned p → IsPinned (set_eip i b p)
set_eip-IsPinned i b p (level, pins) = (
  level,
  λ j. ground (
    arith,
    pins j,
    trigger_external-pin (p.target_harts j),
    clear_external-pin (p.target_harts j),
  ),
)

-- The choice of a source reads nothing that the thread changes.
has_pending-set_eip :
    (c : Config) (i j : ℕ) (b : Bool) (p : Fe310Plic)
    → hart_has_pending_enabled_interrupts c (set_eip i b p) j
      ≡ hart_has_pending_enabled_interrupts c p j
unfolding hart_has_pending_enabled_interrupts hart_get_next_pending_interrupt
has_pending-set_eip c i j b p = refl

-- What the thread has done with the harts from `i` up to `n`.
record IsAwake (c : Config) (i n : ℕ) (p q : Fe310Plic) : Type 0 where
  pending :
      (j : ℕ)
      → hart_has_pending_enabled_interrupts c q j ≡ hart_has_pending_enabled_interrupts c p j
  eip :
      (j : ℕ)
      → q.hart_eip j ≡ (
          if not (ltb j i) && ltb j n && hart_has_pending_enabled_interrupts c p j
          then true
          else p.hart_eip j)
  pinned : IsPinned p → IsPinned q

wake_hart-IsAwake : (c : Config) (i : ℕ) (p : Fe310Plic) → IsAwake c i (i + 1) p (wake_hart c i p)
wake_hart-IsAwake c i p =
    elim (Bool-cases (not (p.hart_eip i) && hart_has_pending_enabled_interrupts c p i)) [
      | inl t ↦ rw t (record {
        pending = λ j. has_pending-set_eip c i j true p;
        eip = λ j. ground arith;
        pinned = set_eip-IsPinned i true p;
      })
      | inr f ↦ rw f (record { pending = λ j. refl; eip = λ j. ground arith; pinned = λ h. h })
    ]

wake_from-IsAwake :
    (c : Config) (left i : ℕ) (p : Fe310Plic) → IsAwake c i (i + left) p (wake_from c left i p)
unfolding wake_from
wake_from-IsAwake c zero i p = record {
  pending = λ j. refl;
  eip = λ j. ground arith;
  pinned = λ h. h;
}
wake_from-IsAwake c (suc left) i p =
    let here = wake_hart-IsAwake c i p in
    let rest = wake_from-IsAwake c left (i + 1) (wake_hart c i p) in
    record {
      pending = λ j. rest.pending j ∙ here.pending j;
      eip = λ j. ground (arith, rest.eip j, here.eip j, here.pending j);
      pinned = λ h. rest.pinned (here.pinned h);
    }

-- For a controller of machine-mode interrupts whose pins agree with `hart_eip`: after a wakeup of
-- the thread every hart with a pending interrupt above its threshold has been told, a hart is told
-- just if it was told before or an interrupt was pending for it, and the pins still agree.
pub run-IsSettled :
    (c : Config) (p : Fe310Plic)
    → IsPinned p
    → let q = run c p in
      IsSettled c q
      × IsPinned q
      × ((i : ℕ)
          → i < c.number_cores
          → q.hart_eip i ≡ (p.hart_eip i || hart_has_pending_enabled_interrupts c p i))
unfolding run hart_has_pending_enabled_interrupts hart_get_next_pending_interrupt
run-IsSettled c p pinned =
    let woken = wake_from-IsAwake c c.number_cores 0 (record p { notified = false }) in
    (
      λ i h some_pending. ground (arith, woken.eip i, woken.pending i),
      woken.pinned pinned,
      λ i h. ground (arith, woken.eip i),
    )

has_pending-candidate :
    (c : Config) (p : Fe310Plic) (i irq : ℕ)
    → 1 ≤ irq
    → irq < c.number_interrupts
    → is_candidate p i true irq ≡ true
    → hart_has_pending_enabled_interrupts c p i ≡ true
unfolding hart_has_pending_enabled_interrupts
has_pending-candidate c p i irq pos h candidate =
    let (top, next) = scan-IsNext c p i true (omega arith) in
    let high = next.highest irq pos h candidate in
    let some_priority : 0 < p.interrupt_priorities irq = ground arith in ground (arith, next.found)

gateway-some :
    (c : Config) (p q : Fe310Plic) (irq : ℕ)
    → gateway_trigger_interrupt c irq p ≡ some q
    → (1 ≤ irq)
      × (irq < c.number_interrupts)
      × (record p { pending_interrupts = set_irq p.pending_interrupts irq; notified = true } ≡ q)
unfolding gateway_trigger_interrupt
gateway-some c p q irq e = ground arith

-- For a controller of machine-mode interrupts whose pins agree with `hart_eip`: an interrupt that a
-- device raises, that a hart has enabled, and that has a priority above the hart's threshold, has
-- the hart's pin up after the next wakeup of the thread.
pub run-gateway :
    (c : Config) (p q : Fe310Plic) (irq i : ℕ)
    → gateway_trigger_interrupt c irq p ≡ some q
    → IsPinned p
    → i < c.number_cores
    → test_irq (λ idx. p.hart_enabled_interrupts (i + idx)) irq ≡ true
    → p.priority_threshold i < p.interrupt_priorities irq
    → external_pin ((run c q).target_harts i) ≡ 1
run-gateway c p q irq i e pinned h enabled above =
    let (pos, lt, eq) = gateway-some c p q irq e in
    subst (λ q. external_pin ((run c q).target_harts i) ≡ 1) eq
      (let q' = record p {
        pending_interrupts = set_irq p.pending_interrupts irq;
        notified = true;
      } in
        let (settled, (level, pins), eip) = run-IsSettled c q' pinned in
        let some_pending : hart_has_pending_enabled_interrupts c q' i ≡ true =
          has_pending-candidate c q' i irq pos lt
            (ground (arith, test-set p.pending_interrupts irq irq)) in
        ground (arith, eip i h, pins i))

-- In a controller with a hart whose pins agree with `hart_eip` and where every hart with a pending
-- interrupt has been told: a write of hart 0's completion register succeeds, both conditions hold
-- again, and the pin of hart 0 is up just if an interrupt is pending for it.
pub complete-IsSettled :
    (c : Config) (p : Fe310Plic)
    → 1 ≤ c.number_cores
    → IsPinned p
    → IsSettled c p
    → (q : Fe310Plic) × (post_write_hart_config c 4 4 p ≡ some q)
      × IsPinned q
      × IsSettled c q
      × (external_pin (q.target_harts 0)
          ≡ (if hart_has_pending_enabled_interrupts c p 0 then 1 else 0))
unfolding post_write_hart_config
complete-IsSettled c p cores pinned settled =
    let told = hart_has_pending_enabled_interrupts c p 0 in
    let q = set_eip 0 told p in
    let q_pinned = set_eip-IsPinned 0 told p pinned in
    (
      q,
      ground (arith, settled 0 cores),
      q_pinned,
      λ i h some_pending. ground (arith, settled i h, has_pending-set_eip c 0 i told p),
      q_pinned.1 0,
    )

run_eip :
    (c : Config) (p : Fe310Plic) (i : ℕ)
    → i < c.number_cores
    → (run c p).hart_eip i ≡ (p.hart_eip i || hart_has_pending_enabled_interrupts c p i)
unfolding run hart_has_pending_enabled_interrupts hart_get_next_pending_interrupt
run_eip c p i h =
    ground (arith, (wake_from-IsAwake c c.number_cores 0 (record p { notified = false })).eip i)

pending-early :
    (c : Config) (p : Fe310Plic)
    → 1 ≤ c.number_cores
    → hart_has_pending_enabled_interrupts c p 0 ≡ true
    → p.hart_eip 0 ≡ false
    → (post_write_hart_config c 4 4 p ≡ none)
      × ((q : Fe310Plic) × (post_write_hart_config c 4 4 (run c p) ≡ some q))
unfolding post_write_hart_config
pending-early c p cores some_pending untold = (
  ground arith,
  (
    set_eip 0 (hart_has_pending_enabled_interrupts c (run c p) 0) (run c p),
    ground (arith, run_eip c p 0 cores),
  ),
)

-- In a controller with a hart, where hart 0 has not been told of an interrupt, a device raises one that hart
-- 0 has enabled and whose priority is above its threshold. Then a write of hart 0's completion register
-- before the next wakeup of the thread fails an assertion, and after the wakeup it succeeds.
pub complete-early :
    (c : Config) (p q : Fe310Plic) (irq : ℕ)
    → gateway_trigger_interrupt c irq p ≡ some q
    → 1 ≤ c.number_cores
    → p.hart_eip 0 ≡ false
    → test_irq p.hart_enabled_interrupts irq ≡ true
    → p.priority_threshold 0 < p.interrupt_priorities irq
    → (post_write_hart_config c 4 4 q ≡ none)
      × ((r : Fe310Plic) × (post_write_hart_config c 4 4 (run c q) ≡ some r))
complete-early c p q irq e cores untold enabled above =
    let (pos, lt, eq) = gateway-some c p q irq e in
    subst
      (λ q.
        (post_write_hart_config c 4 4 q ≡ none)
        × ((r : Fe310Plic) × (post_write_hart_config c 4 4 (run c q) ≡ some r)))
      eq
      (let q' = record p {
        pending_interrupts = set_irq p.pending_interrupts irq;
        notified = true;
      } in
        pending-early c q' cores
          (has_pending-candidate c q' 0 irq pos lt
            (ground (arith, test-set p.pending_interrupts irq irq)))
          untold)
