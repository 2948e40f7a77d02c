-- ===== src/Core/Timing/Branch.antt =====
-- The branch predictor of vp/src/core/rv32/timing.h: the return address stack `HiFive1RAS`, the
-- branch target buffer `HiFive1BTB`, the branch history table `HiFive1BHT` and
-- `HiFive1BranchPredictor`, which stalls the pipeline on a misprediction. The arrays are functions of
-- an index. A failed assertion is `none`.
pub mod Learning
pub mod Penalty
use dse_vp.Base.{
  ℕ, ◌+◌, ◌-◌, ◌/◌, ◌%◌, Bool, true, false, not, Option, none, some, List, [], ◌∷◌, ◌++◌, length,
  min, max, bit_or, ltb, leb, ◌==◌, if◌then◌else◌,
}
use dse_vp.Core.Timing.{◌>>=◌, Pipeline, stall}

-- The last pushed address is the last of the list.
unfoldable pub ras_push : ℕ → List ℕ → List ℕ
ras_push pc q =
    let longer = q ++ pc ∷ [] in
    if ltb 2 (length longer) then elim longer [ [] ↦ [] | x ∷ xs ↦ xs ] else longer

-- The address and the shorter stack; an empty stack has none.
unfoldable pub ras_pop : List ℕ → Option (ℕ × List ℕ)
ras_pop [] = none
ras_pop (x ∷ []) = some (x, [])
ras_pop (x ∷ y ∷ q) = ras_pop (y ∷ q) >>= λ (last, rest). some (last, x ∷ rest)

unfoldable pub btb_tag : ℕ → ℕ
btb_tag pc = pc / 1 % 40

abbrev pub btb_find : ℕ → (ℕ → ℕ) → ℕ
btb_find pc table = table (btb_tag pc)

abbrev pub btb_update : ℕ → ℕ → (ℕ → ℕ) → ℕ → ℕ
btb_update pc target table k = if k == btb_tag pc then target else table k

-- `HiFive1BHT::Entry`, with `counters` as a function of the history.
pub record Entry : Type 0 where
  pub history : ℕ
  pub counters : ℕ → ℕ

unfoldable pub predict_branch_taken : Entry → Bool
predict_branch_taken e = leb 2 (e.counters e.history)

-- A history out of range violates an assertion.
unfoldable pub update_history : Bool → Entry → Option Entry
update_history branch_taken e =
    let counter = e.counters e.history in
    let counter' = if branch_taken then min (counter + 1) 3 else counter - 1 in
    if ltb e.history 8
    then some (record {
      history = bit_or (e.history / 2) (if branch_taken then 4 else 0);
      counters = λ k. if k == e.history then counter' else e.counters k;
    })
    else none

abbrev pub bht_tag : ℕ → ℕ
bht_tag pc = pc / 1 % 128

pub record Predictor : Type 0 where
  pub pipeline : Pipeline
  pub ras : List ℕ
  pub btb : ℕ → ℕ
  pub bht : ℕ → Entry

abbrev pub mispredicted : Predictor → Option Predictor
mispredicted u = stall 3 u.pipeline >>= λ p. some (record u { pipeline = p })

-- The buffer and the pipeline after a branch, by the prediction `taken`.
unfoldable pub resolve : ℕ → ℕ → Bool → Bool → Predictor → Option Predictor
resolve last_pc pc branch_taken taken u =
    let learnt = record u { btb = btb_update last_pc pc u.btb } in
    if taken
    then (if branch_taken
        then (if not (btb_find last_pc u.btb == pc) then mispredicted learnt else some u)
        else mispredicted u)
    else if branch_taken
    then mispredicted learnt
    else some u

unfoldable pub update_branch_prediction : ℕ → ℕ → Bool → Predictor → Option Predictor
update_branch_prediction last_pc pc branch_taken u =
    let entry = u.bht (bht_tag last_pc) in
    resolve last_pc pc branch_taken (predict_branch_taken entry) u >>= λ v.
    update_history branch_taken entry >>= λ e.
    some (record v { bht = λ k. if k == bht_tag last_pc then e else v.bht k })

unfoldable pub do_jump : ℕ → ℕ → Predictor → Option Predictor
do_jump last_pc pc u =
    if not (btb_find last_pc u.btb == pc)
    then mispredicted (record u { btb = btb_update last_pc pc u.btb })
    else some u

unfoldable pub do_call : ℕ → ℕ → ℕ → Predictor → Option Predictor
do_call last_pc pc link u =
    do_jump last_pc pc u >>= λ v. some (record v { ras = ras_push link v.ras })

unfoldable pub do_ret : ℕ → ℕ → Predictor → Option Predictor
do_ret last_pc pc u = elim (ras_pop u.ras) [
  | none ↦ do_jump last_pc pc u
  | some (last, rest) ↦
      let v = record u { ras = rest } in if not (pc == last) then do_jump last_pc pc v else some v
]
