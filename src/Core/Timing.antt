-- ===== src/Core/Timing.antt =====
-- The timing model of the pipeline, `HiFive1PipelineTiming` of vp/src/core/rv32/timing.h: which
-- registers, units and stores are still in use, and for how many cycles. A failed assertion is `none`.
-- A latency that falls to 0 or below is 0, since the entry is erased. The two vectors of the source
-- have one function for their loop, with what an entry is about as a parameter.
pub mod Branch
pub mod Cache
pub mod Hazards
pub mod Tests
use dse_vp.Base.{
  ℕ, ◌+◌, ◌-◌, ◌%◌, Bool, true, false, not, ◌&&◌, ◌||◌, Option, none, some, List, [], ◌∷◌, ◌++◌,
  ltb, leb, ◌==◌, if◌then◌else◌,
}

infixl 5 ◌>>=◌ ◌>>◌
abbrev pub ◌>>=◌ : {A B : Type 0} → Option A → (A → Option B) → Option B
m >>= f = elim m [ none ↦ none | some a ↦ f a ]

abbrev pub ◌>>◌ : {B : Type 0} → Option (Unit {0}) → Option B → Option B
m >> k = m >>= λ _. k

abbrev pub assert : Bool → Option (Unit {0})
assert b = if b then some tt else none

pub record Range : Type 0 where
  pub start : ℕ
  pub stop : ℕ

unfoldable pub overlaps : Range → Range → Bool
overlaps r other =
    if ltb other.start r.start then ltb r.start other.stop else ltb other.start r.stop

abbrev pub size : Range → ℕ
size r = r.stop - r.start

-- An entry that is about `item` for `latency` cycles: `RegisterLatency` with the index of a register,
-- and `StoreReservation` with a range.
pub record Pending (A : Type 0) : Type 0 where
  pub item : A
  pub latency : ℕ

pub record OperationReservation : Type 0 where
  pub acquired : Bool
  pub latency : ℕ

pub record Pipeline : Type 0 where
  pub pending_register_latencies : List (Pending ℕ)
  pub mult : OperationReservation
  pub div : OperationReservation
  pub pending_store_reservations : List (Pending Range)
  pub num_total_cycles : ℕ

unfoldable pub acquire : ℕ → OperationReservation → Option OperationReservation
acquire num_cycles o = do
  assert (ltb 0 num_cycles)
  assert (not o.acquired)
  some (record { acquired = true; latency = num_cycles })

-- With `release`.
unfoldable pub advance_operation : ℕ → OperationReservation → Option OperationReservation
advance_operation num_cycles o =
    if not o.acquired
    then some o
    else if o.latency == 0
    then none
    else if leb o.latency num_cycles
    then some (record { acquired = false; latency = 0 })
    else some (record o { latency = o.latency - num_cycles })

module _ {A : Type 0} where
  -- The loop over a vector, with `advance` of its entries.
  unfoldable pub advance_pending : ℕ → List (Pending A) → Option (List (Pending A))
  advance_pending num_cycles [] = some []
  advance_pending num_cycles (e ∷ es) =
      let rest = advance_pending num_cycles es in
      if e.latency == 0
      then none
      else rest >>= λ tail. some (
          if leb e.latency num_cycles
          then tail
          else record e { latency = e.latency - num_cycles } ∷ tail)

unfoldable pub advance : ℕ → Pipeline → Option Pipeline
advance num_cycles p = do
  assert (ltb 0 num_cycles)
  registers ← advance_pending num_cycles p.pending_register_latencies
  mult ← advance_operation num_cycles p.mult
  div ← advance_operation num_cycles p.div
  stores ← advance_pending num_cycles p.pending_store_reservations
  some (record {
    pending_register_latencies = registers;
    mult = mult;
    div = div;
    pending_store_reservations = stores;
    num_total_cycles = p.num_total_cycles + num_cycles;
  })

unfoldable pub stall : ℕ → Pipeline → Option Pipeline
stall = advance

-- The entry of a register, which the loops of `access_register` and `_find` look for.
unfoldable pub find_latency : ℕ → List (Pending ℕ) → Option ℕ
find_latency reg_idx [] = none
find_latency reg_idx (e ∷ es) =
    let rest = find_latency reg_idx es in if e.item == reg_idx then some e.latency else rest

unfoldable pub access_register : ℕ → Pipeline → Option Pipeline
access_register reg_idx p = elim (find_latency reg_idx p.pending_register_latencies) [
  | none ↦ some p
  | some latency ↦ stall latency p
]

abbrev is_none : {A : Type 0} → Option A → Bool
is_none none = true
is_none (some a) = false

unfoldable pub add_result_latency : ℕ → ℕ → Pipeline → Option Pipeline
add_result_latency reg_idx result_latency p = do
  assert (is_none (find_latency reg_idx p.pending_register_latencies))
  assert (ltb 0 result_latency)
  some (record p {
    pending_register_latencies =
        p.pending_register_latencies ++ record { item = reg_idx; latency = result_latency } ∷ [];
  })

unfoldable pub reserve_mult : ℕ → Pipeline → Option Pipeline
reserve_mult num_cycles p = do
  q ← if p.mult.acquired then stall p.mult.latency p else some p
  mult ← acquire num_cycles q.mult
  some (record q { mult = mult })

unfoldable pub do_mult : ℕ → Pipeline → Option Pipeline
do_mult result_reg_idx p = do q ← reserve_mult 6 p; add_result_latency result_reg_idx 7 q

unfoldable pub reserve_div : ℕ → Pipeline → Option Pipeline
reserve_div num_cycles p = do
  q ← if p.div.acquired then stall p.div.latency p else some p
  div ← acquire num_cycles q.div
  some (record q { div = div })

-- `random` is the result of `rand()`.
unfoldable pub do_div : ℕ → ℕ → Pipeline → Option Pipeline
do_div random result_reg_idx p = do
  q ← reserve_div (random % 5 + 6) p
  add_result_latency result_reg_idx (random % 5 + 6) q

unfoldable pub do_csr : ℕ → Pipeline → Option Pipeline
do_csr result_reg_idx = add_result_latency result_reg_idx 5

unfoldable pub reserve_store : Range → ℕ → Pipeline → Pipeline
reserve_store addr_range num_cycles p = record p {
  pending_store_reservations =
      p.pending_store_reservations ++ record { item = addr_range; latency = num_cycles + 1 } ∷ [];
}

unfoldable pub has_store_reservation : Range → List (Pending Range) → Bool
has_store_reservation addrs [] = false
has_store_reservation addrs (e ∷ es) = overlaps e.item addrs || has_store_reservation addrs es

unfoldable pub do_load : Range → ℕ → ℕ → Pipeline → Option Pipeline
do_load addr_range rd latency p =
    if has_store_reservation addr_range p.pending_store_reservations
    then (do
      q ← stall 5 p
      add_result_latency rd (latency + (if ltb (size addr_range) 4 then 2 else 0)) q)
    else add_result_latency rd latency p
