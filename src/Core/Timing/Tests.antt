-- ===== src/Core/Timing/Tests.antt =====
-- The timing model at concrete states.
use dse_vp.Base.{◌≡◌, inl, inr, refl, true, false, some, [], ◌∷◌, arith}
use dse_vp.Core.Timing.{◌>>=◌, Pipeline, find_latency, access_register}
use dse_vp.Core.Timing.Hazards.{IsTimed}
use dse_vp.Core.Timing.Hazards.Operations.{Operation, perform, access-perform}
use dse_vp.Core.Timing.Branch.{Predictor, update_branch_prediction}
use dse_vp.Core.Timing.Branch.Penalty.{executed, learnt-no_penalty}
use dse_vp.Core.Timing.Cache.{Cache}

-- Register 5 waits for a multiplication.
abbrev busy : Pipeline
busy = record {
  pending_register_latencies = record { item = 5; latency = 7 } ∷ [];
  mult = record { acquired = true; latency = 6 };
  div = record { acquired = false; latency = 0 };
  pending_store_reservations = [];
  num_total_cycles = 0;
}

busy-IsTimed : IsTimed busy
unfolding find_latency
busy-IsTimed = record {
  registers_positive = (omega arith, tt);
  registers_distinct = (refl, tt);
  mult_busy = inr (omega arith);
  div_busy = inl refl;
  stores_positive = tt;
}

access-perform_example :
    (q : Pipeline) × ((access_register 5 busy >>= perform Operation.mult 5) ≡ some q) × IsTimed q
access-perform_example = access-perform Operation.mult 5 busy busy-IsTimed tt

abbrev fresh : Predictor
fresh = record {
  pipeline = busy;
  ras = [];
  btb = λ k. 0;
  bht = λ k. record { history = 0; counters = λ h. 0 };
}

learnt-no_penalty_example :
    (v : Predictor) × (w : Predictor) × (executed 64 32 true 5 fresh ≡ some v)
    × (update_branch_prediction 64 32 true v ≡ some w)
    × (w.pipeline ≡ v.pipeline)
learnt-no_penalty_example =
    learnt-no_penalty 64 32 true 5 fresh busy-IsTimed
      (record { history_small = omega arith; counters_small = λ k. omega arith }) (omega arith)

abbrev empty : Cache
empty = record { pipeline = busy; lines = λ k. record { first = 0; second = 0; stat = false } }
