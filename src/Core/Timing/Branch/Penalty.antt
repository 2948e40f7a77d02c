-- ===== src/Core/Timing/Branch/Penalty.antt =====
-- A branch that keeps its outcome stops costing cycles.
use dse_vp.Base.{
  ℕ, zero, suc, ◌≤◌, ◌≡◌, refl, sym, ◌∙◌, ap, Bool, true, false, Option, some, arith, ◌==◌, ==_self,
  subst, if◌then◌else◌, Bool-cases, inl, inr,
}
use dse_vp.Core.Timing.{◌>>=◌}
use dse_vp.Core.Timing.Hazards.{IsTimed, stall-total}
use dse_vp.Core.Timing.Branch.{
  Predictor, predict_branch_taken, update_branch_prediction, resolve, btb_tag, btb_find, btb_update,
  bht_tag, mispredicted,
}
use dse_vp.Core.Timing.Branch.Learning.{
  IsEntry, updated, update_history-updated, trained, trained-IsEntry, trained-predicts,
}

module _ (last_pc pc : ℕ) where
  -- What `resolve` leaves: the history as it was, and the target of a taken branch.
  record IsResolved (b : Bool) (u v : Predictor) : Type 0 where
    pub same_history : v.bht ≡ u.bht
    pub timed : IsTimed v.pipeline
    pub target : b ≡ true → btb_find last_pc v.btb ≡ pc

  stalled :
      (b : Bool) (u w : Predictor)
      → IsTimed u.pipeline
      → w.pipeline ≡ u.pipeline
      → w.bht ≡ u.bht
      → (b ≡ true → btb_find last_pc w.btb ≡ pc)
      → (v : Predictor) × (mispredicted w ≡ some v) × IsResolved b u v
  stalled b u w t e h f =
      let (p, s, timed, free, m, d) = stall-total 3 u.pipeline t (omega arith) in
      (
        record w { pipeline = p },
        rw (e, s) refl,
        record { same_history = h; timed = timed; target = f },
      )

  resolve-total :
      (b taken : Bool) (u : Predictor)
      → IsTimed u.pipeline
      → (v : Predictor) × (resolve last_pc pc b taken u ≡ some v) × IsResolved b u v
  unfolding resolve
  resolve-total true true u t =
      let learnt : Predictor = record u { btb = btb_update last_pc pc u.btb } in
      let (v, e, r) =
        stalled true u learnt t refl refl (λ q. ground (arith, ==_self (btb_tag last_pc))) in
      elim (Bool-cases (btb_find last_pc u.btb == pc)) [
        | inl q ↦
            (u, rw q refl, record { same_history = refl; timed = t; target = λ z. ground arith })
        | inr q ↦ (v, rw q e, r)
      ]
  resolve-total false true u t = stalled false u u t refl refl (λ q. cc q)
  resolve-total true false u t =
      let learnt : Predictor = record u { btb = btb_update last_pc pc u.btb } in
      stalled true u learnt t refl refl (λ q. ground (arith, ==_self (btb_tag last_pc)))
  resolve-total false false u t =
      (u, refl, record { same_history = refl; timed = t; target = λ q. cc q })

  -- The executions of one branch with one outcome.
  pub executed : Bool → ℕ → Predictor → Option Predictor
  executed b zero u = some u
  executed b (suc n) u = executed b n u >>= update_branch_prediction last_pc pc b

  record IsLearnt (b : Bool) (n : ℕ) (u v : Predictor) : Type 0 where
    pub history : v.bht (bht_tag last_pc) ≡ trained b n (u.bht (bht_tag last_pc))
    pub timed : IsTimed v.pipeline
    pub target : b ≡ true → 1 ≤ n → btb_find last_pc v.btb ≡ pc

  executed-total :
      (b : Bool) (n : ℕ) (u : Predictor)
      → IsTimed u.pipeline
      → IsEntry (u.bht (bht_tag last_pc))
      → (v : Predictor) × (executed b n u ≡ some v) × IsLearnt b n u v
  unfolding executed trained update_branch_prediction
  executed-total b zero u t p =
      (u, refl, record { history = refl; timed = t; target = λ q h. absurd (omega arith) })
  executed-total b (suc n) u t p =
      let tag = bht_tag last_pc in
      let (v, e, l) = executed-total b n u t p in
      let taken = predict_branch_taken (v.bht tag) in
      let (w, f, r) = resolve-total b taken v l.timed in
      let entry : IsEntry (v.bht tag) =
        subst IsEntry (sym l.history) (trained-IsEntry b n (u.bht tag) p) in
      (
        record w { bht = λ k. if k == tag then updated b (v.bht tag) else w.bht k },
        rw (e, f, update_history-updated b (v.bht tag) entry) refl,
        record {
          history = rw (==_self tag, l.history) refl;
          timed = r.timed;
          target = λ q h. r.target q;
        },
      )

  kept_prediction :
      (b taken : Bool) (v : Predictor)
      → taken ≡ b
      → (b ≡ true → btb_find last_pc v.btb ≡ pc)
      → resolve last_pc pc b taken v ≡ some v
  unfolding resolve
  kept_prediction true true v e f = rw (f refl, ==_self pc) refl
  kept_prediction true false v e f = cc e
  kept_prediction false true v e f = cc e
  kept_prediction false false v e f = refl

-- A branch that is executed five times or more with the same outcome, and to the same target when it
-- is taken, is predicted from then on: its next execution with that outcome leaves the pipeline as
-- it is, without a penalty. The executions violate no assertion, whatever the predictor has
-- recorded before.
pub learnt-no_penalty :
    (last_pc pc : ℕ) (b : Bool) (n : ℕ) (u : Predictor)
    → IsTimed u.pipeline
    → IsEntry (u.bht (bht_tag last_pc))
    → 5 ≤ n
    → (v : Predictor) × (w : Predictor) × (executed last_pc pc b n u ≡ some v)
      × (update_branch_prediction last_pc pc b v ≡ some w)
      × (w.pipeline ≡ v.pipeline)
unfolding update_branch_prediction
learnt-no_penalty last_pc pc b n u t p h =
    let tag = bht_tag last_pc in
    let (v, e, l) = executed-total last_pc pc b n u t p in
    let predicted : predict_branch_taken (v.bht tag) ≡ b =
      ap predict_branch_taken l.history ∙ trained-predicts b n (u.bht tag) p h in
    let kept = kept_prediction last_pc pc b _ v predicted (λ q. l.target q (omega arith)) in
    let entry : IsEntry (v.bht tag) =
      subst IsEntry (sym l.history) (trained-IsEntry b n (u.bht tag) p) in
    (
      v,
      record v { bht = λ k. if k == tag then updated b (v.bht tag) else v.bht k },
      e,
      rw (kept, update_history-updated b (v.bht tag) entry) refl,
      refl,
    )
