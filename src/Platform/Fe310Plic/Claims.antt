-- ===== src/Platform/Fe310Plic/Claims.antt =====
-- What the claim register returns, and what a claim does to the pending sources.
use dse_vp.Base.{
  ℕ, ◌+◌, ◌-◌, ◌<◌, ◌≤◌, ◌≡◌, ◌≢◌, inl, refl, sym, ap, subst, Bool, false, some, arith, ◌==◌,
  if◌then◌else◌, ◌∙◌,
}
use dse_vp.Platform.Scan.{IsBest, scan-IsBest}
use dse_vp.Platform.IrqBits.{store, test_irq, clear_irq, test-clear}
use dse_vp.Platform.Fe310Plic.{
  Config, Fe310Plic, clear_pending_interrupt, is_candidate, hart_get_next_pending_interrupt,
  pre_read_hart_config,
}

-- `id` is the first of the sources of the highest priority among those which hart `i` may take, or
-- 0 if it may take none.
abbrev pub IsNext : Config → Fe310Plic → ℕ → Bool → ℕ → Type 0
IsNext c p i consider_threshold id =
    (top : ℕ) × IsBest (is_candidate p i consider_threshold) p.interrupt_priorities
      c.number_interrupts id top

pub scan-IsNext :
    (c : Config) (p : Fe310Plic) (i : ℕ) (consider_threshold : Bool)
    → 1 ≤ c.number_interrupts
    → IsNext c p i consider_threshold (hart_get_next_pending_interrupt c p i consider_threshold)
unfolding hart_get_next_pending_interrupt
scan-IsNext c p i consider_threshold pos =
    let test = is_candidate p i consider_threshold in
    let e : 1 + (c.number_interrupts - 1) ≡ c.number_interrupts = omega arith in
    let start : IsBest test p.interrupt_priorities 1 0 0 = record {
      found = inl (refl, refl);
      highest = λ j p q. absurd (ground arith);
      first = λ j p q. absurd (ground arith);
    } in
    subst
      (λ n.
        (top : ℕ) × IsBest test p.interrupt_priorities n
          (hart_get_next_pending_interrupt c p i consider_threshold) top)
      e
      (scan-IsBest test p.interrupt_priorities (c.number_interrupts - 1) 1 0 0 (omega arith) start)

next_below :
    (c : Config) (p : Fe310Plic) (i : ℕ) (b : Bool)
    → 1 ≤ c.number_interrupts
    → hart_get_next_pending_interrupt c p i b < c.number_interrupts
next_below c p i b pos = let (top, best) = scan-IsNext c p i b pos in ground (arith, best.found)

-- In a controller with a source and a hart, a read of hart 0's claim register succeeds and returns
-- the first source of the highest priority among those enabled, pending and of nonzero priority, or
-- 0 if there is none, whatever the threshold. It clears the pending bit of that source and of no
-- other, and leaves `hart_eip`.
pub claim-exact :
    (c : Config) (p : Fe310Plic)
    → 1 ≤ c.number_interrupts
    → 1 ≤ c.number_cores
    → let id = hart_get_next_pending_interrupt c p 0 false in
      IsNext c p 0 false id
      × ((q : Fe310Plic) × (pre_read_hart_config c 4 4 p ≡ some q)
          × (q.claim_response 0 ≡ id)
          × (q.hart_eip ≡ p.hart_eip)
          × ((j : ℕ)
              → test_irq q.pending_interrupts j
                ≡ (if j == id then false else test_irq p.pending_interrupts j)))
unfolding pre_read_hart_config clear_pending_interrupt
claim-exact c p pos cores =
    let below = next_below c p 0 false pos in
    let id = hart_get_next_pending_interrupt c p 0 false in
    (
      scan-IsNext c p 0 false pos,
      (
        record p {
          claim_response = store p.claim_response 0 id;
          pending_interrupts = clear_irq p.pending_interrupts id;
        },
        ground arith,
        refl,
        refl,
        test-clear p.pending_interrupts id,
      ),
    )

-- In a controller with a source and a hart: after a claim that returned a source, a second claim
-- with nothing between them does not return that source.
claim-once :
    (c : Config) (p q r : Fe310Plic)
    → 1 ≤ c.number_interrupts
    → 1 ≤ c.number_cores
    → pre_read_hart_config c 4 4 p ≡ some q
    → pre_read_hart_config c 4 4 q ≡ some r
    → 1 ≤ q.claim_response 0
    → r.claim_response 0 ≢ q.claim_response 0
claim-once c p q r pos cores eq er some_claim same =
    let (best, (q', q'_eq, q'_id, q'_eip, cleared)) = claim-exact c p pos cores in
    let ((top, next), (r', r'_eq, r'_id, r'_eip, r'_cleared)) = claim-exact c q pos cores in
    let id = hart_get_next_pending_interrupt c p 0 false in
    let id' = hart_get_next_pending_interrupt c q 0 false in
    let qq : q' ≡ q = cc in
    let rr : r' ≡ r = cc in
    let ids : id' ≡ id =
      sym r'_id
      ∙ ap (λ x. x.claim_response 0) rr
      ∙ same
      ∙ ap (λ x. x.claim_response 0) (sym qq)
      ∙ q'_id in
    let id'_id : q.claim_response 0 ≡ id = ap (λ x. x.claim_response 0) (sym qq) ∙ q'_id in
    let gone : test_irq q.pending_interrupts id ≡ false =
      subst (λ x. test_irq x.pending_interrupts id ≡ false) qq (cleared id ∙ ground arith) in
    ground (arith, next.found)
