-- ===== src/Distributed/Master/Pipeline.antt =====
-- `TelemetryPipeline` of src/distributed/master/pipeline.rs, with `LiveSnapshot` of
-- src/distributed/master/dashboard.rs and the task that owns the pipeline. An i64 is its 64-bit
-- word. The generated names of the error classes are a parameter of the report, which is in
-- Pipeline.Report.
pub mod Report
pub mod Induction
pub mod Counts
pub mod Window
pub mod Panics
pub mod Totals
pub mod Tests
use strobengine.Prelude.{
  ℕ, ◌-◌, ◌&&◌, not, Bool, true, false, List, [], ◌∷◌, Option, none, some, max, ltb, ◌==◌,
  if◌then◌else◌, is_empty, length,
}
use strobengine.Prelude.Words.{add64, sub64, mul64, i64_lt, rem_euclid}
use strobengine.Prelude.Maps.{nat_eq, upsert}
use strobengine.Prelude.Order.{upsert_ordered}
use strobengine.Prelude.Floats.{Floats}
use strobengine.Text.Compare.{bytes_eq}
use strobengine.Text.Utf8.{Bytes}
use strobengine.Distributed.Master.Metrics.{
  MetricBatch, Metrics, new_metrics, merge_batch, merge, error_rate_percent, GlobalLatency, latency,
}

abbrev pub epoch_ms : ℕ
epoch_ms = 1000

unfoldable pub epoch_of : ℕ → ℕ
epoch_of unix_ms = sub64 unix_ms (rem_euclid unix_ms epoch_ms)

-- `published == Some(epoch)`
unfoldable pub is_epoch : Option ℕ → ℕ → Bool
is_epoch none epoch = false
is_epoch (some e) epoch = e == epoch

unfoldable pub or_start : Option ℕ → ℕ → Option ℕ
or_start none epoch = some epoch
or_start (some start) epoch = some start

-- `i64::max(1)`
unfoldable pub at_least_one : ℕ → ℕ
at_least_one n = if i64_lt n 1 then 1 else n

-- The epochs from `start` to `epoch`.
unfoldable pub in_range : ℕ → ℕ → ℕ → Bool
in_range start epoch e = not (i64_lt e start) && not (i64_lt epoch e)

module _ (R : Floats) where
  pub record TelemetryPipeline : Type 0 where
    pub run_id : Bytes
    pub bucket_count : ℕ
    pub window_epochs : ℕ
    pub epochs : List (ℕ × Metrics R)
    pub workers : List (Bytes × Metrics R)
    pub started_at_ms : Option ℕ
    pub last_published_epoch : Option ℕ
    pub cumulative : Metrics R
    pub batches : ℕ

  pub record LiveSnapshot : Type 0 where
    pub run_id : Bytes
    pub epoch_ms : ℕ
    pub elapsed_secs : R.F
    pub window_secs : R.F
    pub rps : R.F
    pub error_rate_percent : R.F
    pub p50_ms : R.F
    pub p90_ms : R.F
    pub p95_ms : R.F
    pub p99_ms : R.F
    pub total_requests : ℕ
    pub active_workers : ℕ

  -- `TelemetryPipeline::new`
  unfoldable pub new : Bytes → ℕ → ℕ → TelemetryPipeline
  new run_id bucket_count window_epochs = record {
    run_id = run_id;
    bucket_count = max bucket_count 1;
    window_epochs = at_least_one window_epochs;
    epochs = [];
    workers = [];
    started_at_ms = none;
    last_published_epoch = none;
    cumulative = new_metrics R (max bucket_count 1);
    batches = 0;
  }

  -- `total / seconds`, or 0 when no time has passed.
  unfoldable pub per_second : ℕ → R.F → R.F
  per_second total seconds =
      if R.is_positive seconds then R.div (R.of_u64 total) seconds else R.ratio 0 1

  unfoldable pub elapsed_secs : TelemetryPipeline → ℕ → R.F
  elapsed_secs p epoch = elim p.started_at_ms [
    | none ↦ R.ratio 0 1
    | some start ↦
        if i64_lt epoch start
        then R.ratio 0 1
        else R.div (R.of_i64 (sub64 epoch start)) (R.ratio 1000 1)
  ]

  -- The entries that the range goes through.
  unfoldable pub merge_entries : ℕ → ℕ → Metrics R → List (ℕ × Metrics R) → Metrics R
  merge_entries start epoch window [] = window
  merge_entries start epoch window ((e, m) ∷ epochs) =
      merge_entries start epoch (if in_range start epoch e then merge R window m else window) epochs

  -- `range(start..=epoch)`, which panics when the start has wrapped round to after the epoch, and
  -- the merges of its entries.
  unfoldable pub merge_range : ℕ → ℕ → Metrics R → List (ℕ × Metrics R) → Option (Metrics R)
  merge_range start epoch window epochs =
      if i64_lt epoch start then none else some (merge_entries start epoch window epochs)

  unfoldable pub window_start : TelemetryPipeline → ℕ → ℕ
  window_start p epoch = sub64 epoch (mul64 (sub64 p.window_epochs 1) epoch_ms)

  -- None if the range panics, as in all that calls it.
  unfoldable pub window_metrics : TelemetryPipeline → ℕ → Option (Metrics R)
  window_metrics p epoch =
      merge_range (window_start p epoch) epoch (new_metrics R p.bucket_count) p.epochs

  unfoldable pub snapshot_of : TelemetryPipeline → ℕ → Metrics R → LiveSnapshot
  snapshot_of p epoch window =
      let window_secs =
        R.mul (R.of_i64 p.window_epochs) (R.div (R.of_i64 epoch_ms) (R.ratio 1000 1)) in
      let timing = latency R window in
      record {
        run_id = p.run_id;
        epoch_ms = epoch;
        elapsed_secs = elapsed_secs p epoch;
        window_secs = window_secs;
        rps = per_second window.total window_secs;
        error_rate_percent = error_rate_percent R window;
        p50_ms = timing.p50_ms;
        p90_ms = timing.p90_ms;
        p95_ms = timing.p95_ms;
        p99_ms = timing.p99_ms;
        total_requests = p.cumulative.total;
        active_workers = length p.workers;
      }

  unfoldable pub snapshot : TelemetryPipeline → ℕ → Option LiveSnapshot
  snapshot p epoch = elim (window_metrics p epoch) [
    | none ↦ none
    | some window ↦ some (snapshot_of p epoch window)
  ]

  -- `ingest` up to the test for a publication.
  unfoldable pub absorb : TelemetryPipeline → MetricBatch → ℕ → TelemetryPipeline
  absorb p batch epoch =
      let empty = new_metrics R p.bucket_count in
      let add : Metrics R → Metrics R = λ m. merge_batch R m batch p.bucket_count in
      record p {
        started_at_ms = or_start p.started_at_ms epoch;
        epochs = upsert_ordered i64_lt epoch empty add p.epochs;
        workers =
            if is_empty batch.worker_id
            then p.workers
            else upsert batch.worker_id empty add p.workers;
        cumulative = add p.cumulative;
        batches = add64 p.batches 1;
      }

  abbrev pub with_snapshot :
      TelemetryPipeline → Option LiveSnapshot → Option (TelemetryPipeline × Option LiveSnapshot)
  with_snapshot p none = none
  with_snapshot p (some s) = some (p, some s)

  -- The pipeline after a batch and what it publishes, or none where it panics.
  unfoldable pub ingest :
      TelemetryPipeline → MetricBatch → Option (TelemetryPipeline × Option LiveSnapshot)
  ingest p batch =
      let epoch = epoch_of batch.window_start_unix_ms in
      let q = absorb p batch epoch in
      if is_epoch q.last_published_epoch epoch
      then some (q, none)
      else with_snapshot (record q { last_published_epoch = some epoch })
          (snapshot (record q { last_published_epoch = some epoch }) epoch)

  abbrev pub publish : Option LiveSnapshot → List LiveSnapshot → List LiveSnapshot
  publish none sent = sent
  publish (some s) sent = s ∷ sent

  -- The task of the pipeline over the batches that it receives, with what it publishes. A panic ends
  -- the task, and the pipeline is gone.
  unfoldable pub run_pipeline :
      TelemetryPipeline → List MetricBatch → Option TelemetryPipeline × List LiveSnapshot
  run_pipeline p [] = (some p, [])
  run_pipeline p (b ∷ bs) = elim (ingest p b) [
    | none ↦ (none, [])
    | some (q, published) ↦ let (end, sent) = run_pipeline q bs in (end, publish published sent)
  ]
