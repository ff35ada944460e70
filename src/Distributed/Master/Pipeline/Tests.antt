-- ===== src/Distributed/Master/Pipeline/Tests.antt =====
-- Runs of the telemetry pipeline of src/distributed/master/pipeline.rs, with numbers in place of
-- its floats.
use strobengine.Prelude.{
  ℕ, ◌+◌, ◌-◌, ◌*◌, ◌/◌, ◌≡◌, refl, false, none, some, arith, List, [], ◌∷◌, leb, ltb, min, max,
}
use strobengine.Prelude.Maps.{nat_eq}
use strobengine.Prelude.Floats.{Floats}
use strobengine.Prelude.Totals.{sum_where}
use strobengine.Text.Compare.{bytes_eq}
use strobengine.Distributed.Master.Metrics.{MetricBatch, Metrics}
use strobengine.Distributed.Master.Metrics.Counts.{requests, count, batch_count}
use strobengine.Distributed.Master.Pipeline.{
  TelemetryPipeline, new, run_pipeline, window_metrics, epoch_of,
}
use strobengine.Distributed.Master.Pipeline.Window.{new-runs, window_counts}
use strobengine.Distributed.Master.Pipeline.Report.{finalize}
use strobengine.Distributed.Master.Pipeline.Totals.{shares_add_up}

abbrev pub whole_floats : Floats
whole_floats = record {
  F = ℕ;
  ratio = λ a b. a / b;
  infinity = 1000000;
  of_u64 = λ n. n;
  of_i64 = λ n. n;
  of_f32 = λ n. n;
  of_bits = λ n. n;
  add = λ a b. a + b;
  sub = λ a b. a - b;
  mul = λ a b. a * b;
  div = λ a b. a / b;
  round = λ n. n;
  to_u64 = λ n. n;
  least = min;
  greatest = max;
  clamp = λ x low high. min (max x low) high;
  at_least = λ a b. leb b a;
  is_above = λ a b. ltb b a;
  is_positive = ltb 0;
  is_finite = λ x. ltb x 1000000;
  is_nan = λ x. false;
}

abbrev pub batch : ℕ → ℕ → ℕ → MetricBatch
batch worker time total = record {
  worker_id = worker ∷ [];
  test_run_id = 114 ∷ [];
  window_start_unix_ms = time;
  total_requests = total;
  success_count = total - 1;
  failure_count = 1;
  bytes_received = 10 * total;
  latency =
      some
        (record { min_ms = 1; max_ms = 30; sample_count = total; bucket_counts = 0 ∷ total ∷ [] });
  errors = record { error_class = 4; count = 1; detail = [] } ∷ [];
}

-- Two workers; the second batch of epoch 10000 comes after one of epoch 11000.
abbrev batches : List MetricBatch
batches = batch 49 10000 10 ∷ batch 50 11200 20 ∷ batch 50 10500 5 ∷ []

abbrev fresh : TelemetryPipeline whole_floats
fresh = new whole_floats (114 ∷ []) 10 2

window_counts_example :
    (end : TelemetryPipeline whole_floats) × ((run_pipeline whole_floats fresh batches).0
      ≡ some end)
    × (w : Metrics whole_floats) × (window_metrics whole_floats end 11000 ≡ some w)
    × (count whole_floats requests w ≡ 35)
unfolding sum_where batch_count epoch_of
window_counts_example =
    window_counts whole_floats (114 ∷ []) 10 2 requests 11900 batches (omega arith, omega arith)
      (omega arith) (omega arith, (omega arith, (omega arith, tt)))

-- What the pipeline is after them.
abbrev ended : TelemetryPipeline whole_floats
ended =
    (new-runs whole_floats (114 ∷ []) 10 2 batches (omega arith, omega arith)
      (omega arith, (omega arith, (omega arith, tt)))).0

shares_add_up_example : (finalize whole_floats (λ class. none) ended).total_requests ≡ 35
unfolding sum_where
shares_add_up_example =
    (shares_add_up whole_floats (114 ∷ []) 10 2 (λ class. none) batches ended
      (refl, (refl, (refl, tt)))
      (new-runs whole_floats (114 ∷ []) 10 2 batches (omega arith, omega arith)
        (omega arith, (omega arith, (omega arith, tt)))).1).1
