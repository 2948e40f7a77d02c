-- ===== src/Platform/Fu540Plic/LastSource.antt =====
-- What becomes of source 53.
use dse_vp.Base.{
  ℕ, zero, suc, ◌+◌, ◌<◌, ◌≡◌, inl, inr, refl, ap, ◌∙◌, subst, Bool, true, false, not, ◌&&◌, Option,
  none, some, ltb, if◌then◌else◌, arith, Bool-cases,
}
use dse_vp.Core.Trap.{machine_mode}
use dse_vp.Platform.IrqBits.{test_irq, set_irq, test-set}
use dse_vp.Platform.Fu540Plic.{
  Fu540Plic, numirq, is_enabled, is_pending, is_candidate, passes, next_from, next_pending_irq,
  has_pending_irq, gateway_trigger_interrupt, notify_from, notify_hart, run,
}

none_twice : (b : Bool) → (if◌then◌else◌ {A = Option ℕ} b none none) ≡ none
none_twice true = refl
none_twice false = refl

next_from-last :
    (hart lvl : ℕ) (ignth : Bool) (p : Fu540Plic) (left irq selirq maxpri : ℕ)
    → is_candidate hart lvl p numirq ≡ true
    → irq + left ≡ numirq + 1
    → 0 < left
    → next_from hart lvl ignth p left irq selirq maxpri ≡ none
unfolding next_from
next_from-last hart lvl ignth p zero irq selirq maxpri busy e pos = absurd (omega arith)
next_from-last hart lvl ignth p (suc left) irq selirq maxpri busy e pos =
    let better = passes hart lvl ignth p irq && ltb maxpri (p.interrupt_priorities irq) in
    let id = if better then irq else selirq in
    let best = if better then p.interrupt_priorities irq else maxpri in
    elim (Bool-cases (ltb irq numirq)) [
      | inl f ↦
          ap (λ o. if is_candidate hart lvl p irq && not (ltb irq numirq) then none else o)
            (next_from-last hart lvl ignth p left (irq + 1) id best busy (omega arith)
              (ground arith))
          ∙ none_twice (is_candidate hart lvl p irq && not (ltb irq numirq))
      | inr f ↦
          let last : numirq ≡ irq = ground arith in
          ap (λ b. if b then none else next_from hart lvl ignth p left (irq + 1) id best)
            (subst (λ j. (is_candidate hart lvl p j && not (ltb j numirq)) ≡ true) last
              (ap (λ b. b && true) busy))
    ]

has_pending-last :
    (p : Fu540Plic) → is_candidate 0 machine_mode p numirq ≡ true → has_pending_irq 0 p ≡ none
unfolding has_pending_irq next_pending_irq
has_pending-last p busy =
    ap (λ o. elim o [ none ↦ none | some m ↦ some (if ltb 0 m then some machine_mode else none) ])
      (next_from-last 0 machine_mode false p numirq 1 0 0 busy refl (omega arith))

notify_from-last :
    (n : ℕ) (p : Fu540Plic)
    → 0 < n
    → is_candidate 0 machine_mode p numirq ≡ true
    → notify_from n 0 p ≡ none
unfolding notify_from
notify_from-last zero p pos busy = absurd (omega arith)
notify_from-last (suc n) p pos busy =
    ap (λ o. elim o [ none ↦ none | some lvl ↦ notify_from n 1 (notify_hart 0 lvl p) ])
      (has_pending-last p busy)

-- On a platform with a hart 0 for which source 53 is enabled, a device that raises that source
-- fails the simulation: the next wakeup of the thread reads the priority past the end of the
-- array.
pub run-last_source :
    (p q : Fu540Plic)
    → 0 < p.harts
    → is_enabled 0 machine_mode numirq p ≡ true
    → gateway_trigger_interrupt numirq p ≡ some q
    → run q ≡ none
unfolding run is_enabled is_pending gateway_trigger_interrupt
run-last_source p q pos on e =
    let raised = record p {
      pending_interrupts = set_irq p.pending_interrupts numirq;
      notified = true;
    } in
    let same : raised ≡ q = cc e in
    let set : test_irq (set_irq p.pending_interrupts numirq) numirq ≡ true =
      test-set p.pending_interrupts numirq numirq ∙ ground arith in
    let busy : (is_enabled 0 machine_mode numirq p && is_pending numirq raised) ≡ true =
      rw (on, set) refl in
    subst (λ r. run r ≡ none) same
      (notify_from-last p.harts (record raised { notified = false }) pos busy)
