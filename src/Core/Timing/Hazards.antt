-- ===== src/Core/Timing/Hazards.antt =====
-- The assertions of the timing model hold: latencies stay positive, a register has at most one
-- pending operation, and an operation starts when its unit and its register are free.
pub mod Operations
use dse_vp.Base.{
  ℕ, ◌+◌, ◌-◌, ◌%◌, ◌≤◌, ◌<◌, ◌≡◌, ◌≢◌, ◌⊎◌, inl, inr, refl, Bool, true, false, not, Option, none,
  some, List, [], ◌∷◌, ◌++◌, arith, ltb, leb, ◌==◌, if◌then◌else◌, Bool-cases, Option-cases, ==_iff,
  subst,
}
use dse_vp.Core.Timing.{
  ◌>>=◌, ◌>>◌, Range, Pending, OperationReservation, Pipeline, acquire, advance_operation,
  advance_pending, advance, stall, find_latency, access_register, add_result_latency, reserve_mult,
  do_mult, reserve_div, do_div, do_csr, reserve_store, has_store_reservation, do_load,
}

abbrev pub IsPositive : {A : Type 0} → List (Pending A) → Type 0
IsPositive [] = Unit
IsPositive (e ∷ es) = (0 < e.latency) × IsPositive es

abbrev pub IsDistinct : List (Pending ℕ) → Type 0
IsDistinct [] = Unit
IsDistinct (e ∷ es) = (find_latency e.item es ≡ none) × IsDistinct es

-- A unit that is in use has cycles to go.
abbrev pub IsBusy : OperationReservation → Type 0
IsBusy o = (o.acquired ≡ false) ⊎ (0 < o.latency)

pub record IsTimed (p : Pipeline) : Type 0 where
  pub registers_positive : IsPositive p.pending_register_latencies
  pub registers_distinct : IsDistinct p.pending_register_latencies
  pub mult_busy : IsBusy p.mult
  pub div_busy : IsBusy p.div
  pub stores_positive : IsPositive p.pending_store_reservations

-- The state after some cycles, without the assertions.
module _ {A : Type 0} (n : ℕ) where
  pub kept : List (Pending A) → List (Pending A)
  kept [] = []
  kept (e ∷ es) =
      if leb e.latency n then kept es else record e { latency = e.latency - n } ∷ kept es

  advance_pending-kept :
      (es : List (Pending A)) → IsPositive es → advance_pending n es ≡ some (kept es)
  unfolding advance_pending kept
  advance_pending-kept [] h = refl
  advance_pending-kept (e ∷ es) (h, hs) = ground (arith, advance_pending-kept es hs)

  kept-IsPositive : (es : List (Pending A)) → IsPositive es → IsPositive (kept es)
  unfolding kept
  kept-IsPositive [] h = tt
  kept-IsPositive (e ∷ es) (h, hs) = ground (arith, kept-IsPositive es hs)

module _ (n : ℕ) where
  -- A register that is free stays free.
  find-kept :
      (reg : ℕ) (es : List (Pending ℕ))
      → find_latency reg es ≡ none
      → find_latency reg (kept n es) ≡ none
  unfolding find_latency kept
  find-kept reg [] f = refl
  find-kept reg (e ∷ es) f = ground (arith, find-kept reg es)

  kept-IsDistinct : (es : List (Pending ℕ)) → IsDistinct es → IsDistinct (kept n es)
  unfolding kept
  kept-IsDistinct [] h = tt
  kept-IsDistinct (e ∷ es) (h, hs) = ground (arith, kept-IsDistinct es hs, find-kept e.item es h)

  -- A register becomes free when its time is over.
  find-expired :
      (reg l : ℕ) (es : List (Pending ℕ))
      → IsDistinct es
      → find_latency reg es ≡ some l
      → l ≤ n
      → find_latency reg (kept n es) ≡ none
  unfolding find_latency kept
  find-expired reg l [] h f le = cc
  find-expired reg l (e ∷ es) (h, hs) f le =
      let other = find-kept e.item es h in
      let same = ==_iff e.item reg in
      elim (Bool-cases (e.item == reg)) [
        | inl q ↦
            let moved : find_latency reg (kept n es) ≡ none =
              subst (λ r. find_latency r (kept n es) ≡ none) (same.0 q) other in
            ground arith
        | inr q ↦ ground (arith, find-expired reg l es hs (ground arith) le)
      ]

  kept_operation : OperationReservation → OperationReservation
  kept_operation o =
      if not o.acquired
      then o
      else if leb o.latency n
      then record { acquired = false; latency = 0 }
      else record o { latency = o.latency - n }

  advance_operation-kept :
      (o : OperationReservation) → IsBusy o → advance_operation n o ≡ some (kept_operation o)
  unfolding advance_operation kept_operation
  advance_operation-kept o b = ground arith

  kept_operation-IsBusy : (o : OperationReservation) → IsBusy o → IsBusy (kept_operation o)
  unfolding kept_operation
  kept_operation-IsBusy o b = ground arith

  pub advanced : Pipeline → Pipeline
  advanced p = record {
    pending_register_latencies = kept n p.pending_register_latencies;
    mult = kept_operation p.mult;
    div = kept_operation p.div;
    pending_store_reservations = kept n p.pending_store_reservations;
    num_total_cycles = p.num_total_cycles + n;
  }

  advance-advanced : (p : Pipeline) → IsTimed p → 0 < n → advance n p ≡ some (advanced p)
  unfolding advance advanced
  advance-advanced p t h = ground (
    arith,
    advance_pending-kept n p.pending_register_latencies t.registers_positive,
    advance_operation-kept p.mult t.mult_busy,
    advance_operation-kept p.div t.div_busy,
    advance_pending-kept n p.pending_store_reservations t.stores_positive,
  )

  advanced-IsTimed : (p : Pipeline) → IsTimed p → IsTimed (advanced p)
  unfolding advanced
  advanced-IsTimed p t = record {
    registers_positive = kept-IsPositive n _ t.registers_positive;
    registers_distinct = kept-IsDistinct _ t.registers_distinct;
    mult_busy = kept_operation-IsBusy _ t.mult_busy;
    div_busy = kept_operation-IsBusy _ t.div_busy;
    stores_positive = kept-IsPositive n _ t.stores_positive;
  }

-- An entry that is added at the end.
find-snoc :
    (reg : ℕ) (es : List (Pending ℕ)) (e : Pending ℕ)
    → e.item ≢ reg
    → find_latency reg es ≡ none
    → find_latency reg (es ++ e ∷ []) ≡ none
unfolding find_latency
find-snoc reg [] e ne f = ground arith
find-snoc reg (x ∷ es) e ne f = ground (arith, find-snoc reg es e ne)

snoc-IsPositive :
    {A : Type 0} (es : List (Pending A)) (e : Pending A)
    → IsPositive es
    → 0 < e.latency
    → IsPositive (es ++ e ∷ [])
snoc-IsPositive [] e h p = (p, tt)
snoc-IsPositive (x ∷ es) e (h, hs) p = (h, snoc-IsPositive es e hs p)

snoc-IsDistinct :
    (es : List (Pending ℕ)) (e : Pending ℕ)
    → IsDistinct es
    → find_latency e.item es ≡ none
    → IsDistinct (es ++ e ∷ [])
unfolding find_latency
snoc-IsDistinct [] e h f = (refl, tt)
snoc-IsDistinct (x ∷ es) e (h, hs) f =
    (find-snoc x.item es e (λ q. absurd (ground arith)) h, snoc-IsDistinct es e hs (ground arith))

-- The register is free.
abbrev pub IsFree : ℕ → Pipeline → Type 0
IsFree reg p = find_latency reg p.pending_register_latencies ≡ none

pub add_result-total :
    (reg latency : ℕ) (p : Pipeline)
    → IsTimed p
    → IsFree reg p
    → 0 < latency
    → (q : Pipeline) × (add_result_latency reg latency p ≡ some q) × IsTimed q
unfolding add_result_latency
add_result-total reg latency p t f h =
    let entry : Pending ℕ = record { item = reg; latency = latency } in
    (
      record p { pending_register_latencies = p.pending_register_latencies ++ entry ∷ [] },
      ground arith,
      record {
        registers_positive = snoc-IsPositive _ entry t.registers_positive h;
        registers_distinct = snoc-IsDistinct _ entry t.registers_distinct f;
        mult_busy = t.mult_busy;
        div_busy = t.div_busy;
        stores_positive = t.stores_positive;
      },
    )

pub stall-total :
    (n : ℕ) (p : Pipeline)
    → IsTimed p
    → 0 < n
    → (q : Pipeline) × (stall n p ≡ some q)
      × IsTimed q
      × ((reg : ℕ) → IsFree reg p → IsFree reg q)
      × (p.mult.latency ≤ n → q.mult.acquired ≡ false)
      × (p.div.latency ≤ n → q.div.acquired ≡ false)
unfolding stall advanced kept_operation
stall-total n p t h = (
  advanced n p,
  advance-advanced n p t h,
  advanced-IsTimed n p t,
  (λ reg f. find-kept n reg _ f),
  (λ le. ground arith),
  (λ le. ground arith),
)

-- The latency of a register that is in use.
find-positive :
    (reg l : ℕ) (es : List (Pending ℕ)) → IsPositive es → find_latency reg es ≡ some l → 0 < l
unfolding find_latency
find-positive reg l [] h f = cc
find-positive reg l (e ∷ es) (h, hs) f = ground (arith, find-positive reg l es hs)

pub access-total :
    (reg : ℕ) (p : Pipeline)
    → IsTimed p
    → (q : Pipeline) × (access_register reg p ≡ some q) × IsTimed q × IsFree reg q
unfolding access_register stall advanced
access-total reg p t = elim (Option-cases (find_latency reg p.pending_register_latencies)) [
  | inl e ↦ (p, rw (e, access_register) refl, t, e)
  | inr (l, e) ↦ (
    advanced l p,
    rw (e, access_register) (advance-advanced l p t (find-positive reg l _ t.registers_positive e)),
    advanced-IsTimed l p t,
    find-expired l reg l _ t.registers_distinct e (omega arith),
  )
]
