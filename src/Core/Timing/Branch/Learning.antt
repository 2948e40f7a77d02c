-- ===== src/Core/Timing/Branch/Learning.antt =====
-- What the branch predictor has learnt after some executions of a branch.
use dse_vp.Base.{
  ℕ, zero, suc, ◌+◌, ◌-◌, ◌/◌, ◌≤◌, ◌<◌, ◌≡◌, refl, Bool, true, false, some, arith, min, bit_or,
  or_field, or-zero, lt→ltb, ◌==◌, if◌then◌else◌,
}
use dse_vp.Core.Timing.Branch.{Entry, predict_branch_taken, update_history}

pub record IsEntry (e : Entry) : Type 0 where
  pub history_small : e.history < 8
  pub counters_small : (k : ℕ) → e.counters k ≤ 3

-- The update without its assertion.
pub updated : Bool → Entry → Entry
updated b e = record {
  history = bit_or (e.history / 2) (if b then 4 else 0);
  counters = λ k.
      if k == e.history
      then (if b then min (e.counters e.history + 1) 3 else e.counters e.history - 1)
      else e.counters k;
}

shifted :
    (b : Bool) (h : ℕ) → h < 8 → bit_or (h / 2) (if b then 4 else 0) ≡ h / 2 + (if b then 4 else 0)
shifted true h p = or_field 1 2 (h / 2) 1 (omega arith) (omega arith)
shifted false h p = ground (arith, or-zero (h / 2))

pub update_history-updated :
    (b : Bool) (e : Entry) → IsEntry e → update_history b e ≡ some (updated b e)
unfolding update_history updated
update_history-updated b e p = rw (lt→ltb e.history 8 p.history_small) refl

pub updated-IsEntry : (b : Bool) (e : Entry) → IsEntry e → IsEntry (updated b e)
unfolding updated
updated-IsEntry b e p = record {
  history_small = ground (arith, shifted b e.history p.history_small, p.history_small);
  counters_small = λ k. ground (arith, p.counters_small k, p.counters_small e.history);
}

-- The entry after a number of executions with the same outcome.
unfoldable pub trained : Bool → ℕ → Entry → Entry
trained b zero e = e
trained b (suc n) e = updated b (trained b n e)

pub trained-IsEntry : (b : Bool) (n : ℕ) (e : Entry) → IsEntry e → IsEntry (trained b n e)
unfolding trained
trained-IsEntry b zero e p = p
trained-IsEntry b (suc n) e p = updated-IsEntry b (trained b n e) (trained-IsEntry b n e p)

record IsTaken (n : ℕ) (e : Entry) : Type 0 where
  pub one : 1 ≤ n → 4 ≤ e.history
  pub two : 2 ≤ n → 6 ≤ e.history
  pub three : 3 ≤ n → 7 ≤ e.history
  pub four : 4 ≤ n → 1 ≤ e.counters 7
  pub five : 5 ≤ n → 2 ≤ e.counters 7

taken : (n : ℕ) (e : Entry) → IsEntry e → IsTaken n (trained true n e)
unfolding trained updated
taken zero e p = ground arith
taken (suc n) e p =
    let t = trained true n e in
    let q = trained-IsEntry true n e p in
    let i = taken n e p in
    let s = shifted true t.history q.history_small in
    let c = q.counters_small 7 in
    record {
      one = λ h. ground (arith, q.history_small);
      two = λ h. ground (arith, q.history_small);
      three = λ h. ground (arith, q.history_small);
      four = λ h. ground (arith, q.history_small);
      five = λ h. ground (arith, q.history_small);
    }

record IsNotTaken (n : ℕ) (e : Entry) : Type 0 where
  pub one : 1 ≤ n → e.history ≤ 3
  pub two : 2 ≤ n → e.history ≤ 1
  pub three : 3 ≤ n → e.history ≡ 0
  pub four : 4 ≤ n → e.counters 0 ≤ 2
  pub five : 5 ≤ n → e.counters 0 ≤ 1

not_taken : (n : ℕ) (e : Entry) → IsEntry e → IsNotTaken n (trained false n e)
unfolding trained updated
not_taken zero e p = ground arith
not_taken (suc n) e p =
    let t = trained false n e in
    let q = trained-IsEntry false n e p in
    let i = not_taken n e p in
    let s = shifted false t.history q.history_small in
    let c = q.counters_small 0 in
    record {
      one = λ h. ground (arith, q.history_small);
      two = λ h. ground (arith, q.history_small);
      three = λ h. ground (arith, q.history_small);
      four = λ h. ground (arith, q.history_small);
      five = λ h. ground (arith, q.history_small);
    }

pub trained-predicts :
    (b : Bool) (n : ℕ) (e : Entry) → IsEntry e → 5 ≤ n → predict_branch_taken (trained b n e) ≡ b
unfolding predict_branch_taken
trained-predicts true n e p h =
    let q = (trained-IsEntry true n e p).history_small in
    let i = taken n e p in let seven : (trained true n e).history ≡ 7 = ground arith in ground arith
trained-predicts false n e p h =
    let i = not_taken n e p in
    let none_taken : (trained false n e).history ≡ 0 = ground arith in ground arith
