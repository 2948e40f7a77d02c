-- ===== src/Core/Timing/Hazards/Operations.antt =====
-- The operations whose result takes several cycles violate no assertion of the timing model.
use dse_vp.Base.{
  ℕ, ◌+◌, ◌%◌, ◌<◌, ◌≡◌, inl, inr, true, Option, some, arith, ltb, if◌then◌else◌, Bool-cases,
}
use dse_vp.Core.Timing.{
  ◌>>=◌, Range, Pipeline, acquire, access_register, add_result_latency, reserve_mult, do_mult,
  reserve_div, do_div, do_csr, has_store_reservation, do_load, size,
}
use dse_vp.Core.Timing.Hazards.{IsTimed, IsFree, add_result-total, stall-total, access-total}

-- An operation whose result takes several cycles: a multiplication, a division with what `rand()`
-- returns, an access to a control and status register, and a load of a range with its latency.
pub data Operation : Type 0 where
  mult : Operation
  div : ℕ → Operation
  csr : Operation
  load : Range → ℕ → Operation

abbrev pub perform : Operation → ℕ → Pipeline → Option Pipeline
perform Operation.mult reg = do_mult reg
perform (Operation.div random) reg = do_div random reg
perform Operation.csr reg = do_csr reg
perform (Operation.load range latency) reg = do_load range reg latency

-- A load has a latency.
abbrev pub TakesTime : Operation → Type 0
TakesTime (Operation.load range latency) = 0 < latency
TakesTime _ = Unit

abbrev Succeeds : Option Pipeline → Type 0
Succeeds o = (q : Pipeline) × (o ≡ some q) × IsTimed q

-- The rest of an operation that has found its state.
then_add :
    (reg latency : ℕ) (o : Option Pipeline)
    → (p : Pipeline) × (o ≡ some p) × IsTimed p × IsFree reg p
    → 0 < latency
    → Succeeds (o >>= add_result_latency reg latency)
then_add reg latency o (p, e, t, f) h = rw e (add_result-total reg latency p t f h)

reserve_mult-total :
    (n reg : ℕ) (p : Pipeline)
    → IsTimed p
    → IsFree reg p
    → 0 < n
    → (q : Pipeline) × (reserve_mult n p ≡ some q) × IsTimed q × IsFree reg q
unfolding reserve_mult acquire
reserve_mult-total n reg p t f h = elim (Bool-cases p.mult.acquired) [
  | inr e ↦
      (record p { mult = record { acquired = true; latency = n } }, ground arith, ground arith, f)
  | inl e ↦
      let (q, s, u, free, m, d) = stall-total p.mult.latency p t (ground (arith, t.mult_busy)) in
      (
        record q { mult = record { acquired = true; latency = n } },
        ground (arith, m (omega arith)),
        record {
          registers_positive = u.registers_positive;
          registers_distinct = u.registers_distinct;
          mult_busy = inr h;
          div_busy = u.div_busy;
          stores_positive = u.stores_positive;
        },
        free reg f,
      )
]

reserve_div-total :
    (n reg : ℕ) (p : Pipeline)
    → IsTimed p
    → IsFree reg p
    → 0 < n
    → (q : Pipeline) × (reserve_div n p ≡ some q) × IsTimed q × IsFree reg q
unfolding reserve_div acquire
reserve_div-total n reg p t f h = elim (Bool-cases p.div.acquired) [
  | inr e ↦
      (record p { div = record { acquired = true; latency = n } }, ground arith, ground arith, f)
  | inl e ↦
      let (q, s, u, free, m, d) = stall-total p.div.latency p t (ground (arith, t.div_busy)) in
      (
        record q { div = record { acquired = true; latency = n } },
        ground (arith, d (omega arith)),
        record {
          registers_positive = u.registers_positive;
          registers_distinct = u.registers_distinct;
          mult_busy = u.mult_busy;
          div_busy = inr h;
          stores_positive = u.stores_positive;
        },
        free reg f,
      )
]

load-total :
    (range : Range) (reg latency : ℕ) (p : Pipeline)
    → IsTimed p
    → IsFree reg p
    → 0 < latency
    → Succeeds (do_load range reg latency p)
unfolding do_load
load-total range reg latency p t f h =
    let (q, s, u, free, m, d) = stall-total 5 p t (omega arith) in
    let later : Succeeds
        (add_result_latency reg (latency + (if ltb (size range) 4 then 2 else 0)) q) =
      add_result-total reg _ q u (free reg f) (omega arith) in
    let now = add_result-total reg latency p t f h in
    elim (Bool-cases (has_store_reservation range p.pending_store_reservations)) [
      | inl e ↦ rw (e, s) later
      | inr e ↦ rw e now
    ]

perform-total :
    (op : Operation) (reg : ℕ) (p : Pipeline)
    → IsTimed p
    → IsFree reg p
    → TakesTime op
    → Succeeds (perform op reg p)
unfolding do_mult do_div do_csr
perform-total Operation.mult reg p t f h =
    then_add reg 7 _ (reserve_mult-total 6 reg p t f (omega arith)) (omega arith)
perform-total (Operation.div random) reg p t f h =
    then_add reg _ _ (reserve_div-total (random % 5 + 6) reg p t f (omega arith)) (omega arith)
perform-total Operation.csr reg p t f h = add_result-total reg 5 p t f (omega arith)
perform-total (Operation.load range latency) reg p t f h = load-total range reg latency p t f h

-- The timing of every multiplication, division, register access and load ends with a state: no
-- assertion fails when the destination register is accessed first, as the processor does when it
-- writes it, and the state is again one where all latencies are positive and each register has at
-- most one pending operation.
pub access-perform :
    (op : Operation) (reg : ℕ) (p : Pipeline)
    → IsTimed p
    → TakesTime op
    → (q : Pipeline) × ((access_register reg p >>= perform op reg) ≡ some q) × IsTimed q
access-perform op reg p t h =
    let (q, e, u, f) = access-total reg p t in rw e (perform-total op reg q u f h)
