-- ===== src/Distributed/Telemetry.antt =====
-- The worker's windowed metrics: `WindowedCollector` of src/distributed/telemetry.rs, with the
-- buckets of src/metrics/summary.rs. A batch has the fields that the master reads.
pub mod Conservation
pub mod Tests
use strobengine.Prelude.{
  ℕ, suc, ◌+◌, ◌-◌, Bool, true, false, List, [], ◌∷◌, Option, none, some, ltb, leb, ◌==◌, ◌&&◌,
  ◌||◌, if◌then◌else◌, map, min,
}
use strobengine.Prelude.Words.{u64_mod, add64}
use strobengine.Prelude.Maps.{nat_eq, upsert}
use strobengine.Text.Utf8.{Bytes}
use strobengine.Metrics.Histograms.{Histograms, to_u64}
use strobengine.Metrics.Request.{RequestMetric, is_error}
use strobengine.Distributed.Master.Metrics.{ErrorBreakdown, LatencySummary, MetricBatch}

-- `ErrorClass` by its number: HTTP_4XX, HTTP_5XX or OTHER.
unfoldable pub classify_error : ℕ → ℕ
classify_error status_code =
    if leb 400 status_code && leb status_code 499
    then 6
    else if leb 500 status_code && leb status_code 599
    then 7
    else 10

-- The bucket of a value in microseconds.
unfoldable pub bucket_of : ℕ → ℕ
bucket_of v =
    if ltb v 1000
    then 0
    else if ltb v 5000
    then 1
    else if ltb v 10000
    then 2
    else if ltb v 25000
    then 3
    else if ltb v 50000
    then 4
    else if ltb v 100000
    then 5
    else if ltb v 250000
    then 6
    else if ltb v 500000
    then 7
    else if ltb v 1000000
    then 8
    else 9

-- `buckets[i] += count`
unfoldable pub add_at : ℕ → ℕ → List ℕ → List ℕ
add_at i count [] = []
add_at i count (n ∷ ns) = if i == 0 then add64 n count ∷ ns else n ∷ add_at (i - 1) count ns

unfoldable pub bucketed : List ℕ → List (ℕ × ℕ) → List ℕ
bucketed ns [] = ns
bucketed ns ((v, count) ∷ vs) = bucketed (add_at (bucket_of v) count ns) vs

abbrev no_counts : List ℕ
no_counts = 0 ∷ 0 ∷ 0 ∷ 0 ∷ 0 ∷ 0 ∷ 0 ∷ 0 ∷ 0 ∷ 0 ∷ []

module _ (I : Histograms) where
  unfoldable pub latency_summary : I.H → LatencySummary
  latency_summary hist =
      if I.len hist == 0
      then record { min_ms = 0; max_ms = 0; sample_count = 0; bucket_counts = no_counts }
      else (record {
        min_ms = I.as_ms (I.lowest hist);
        max_ms = I.as_ms (I.highest hist);
        sample_count = I.len hist;
        bucket_counts = bucketed no_counts (I.iter_recorded hist);
      })

  pub record WindowedCollector : Type 0 where
    pub worker_id : Bytes
    pub test_run_id : Bytes
    pub window_start_ms : ℕ
    pub histogram : I.H
    pub total : ℕ
    pub success : ℕ
    pub failure : ℕ
    pub bytes_received : ℕ
    pub errors : List (ℕ × ℕ)
    pub batch_seq : ℕ

  -- `WindowedCollector::new`
  unfoldable pub new : Bytes → Bytes → ℕ → WindowedCollector
  new worker_id test_run_id now_unix_ms = record {
    worker_id = worker_id;
    test_run_id = test_run_id;
    window_start_ms = now_unix_ms;
    histogram = I.empty;
    total = 0;
    success = 0;
    failure = 0;
    bytes_received = 0;
    errors = [];
    batch_seq = 0;
  }

  -- `record`
  unfoldable pub record_metric : WindowedCollector → RequestMetric → WindowedCollector
  record_metric c m =
      let timed = record c {
        total = add64 c.total 1;
        histogram = I.saturating_record c.histogram (to_u64 m.latency_micros);
        bytes_received = add64 c.bytes_received m.bytes_received;
      } in
      if is_error m
      then (record timed {
        failure = add64 c.failure 1;
        errors = upsert (classify_error m.status_code) 0 (λ n. add64 n 1) c.errors;
      })
      else (record timed { success = add64 c.success 1 })

  -- The batch of the open window.
  unfoldable pub window_batch : WindowedCollector → MetricBatch
  window_batch c = record {
    worker_id = c.worker_id;
    test_run_id = c.test_run_id;
    window_start_unix_ms = c.window_start_ms;
    total_requests = c.total;
    success_count = c.success;
    failure_count = c.failure;
    bytes_received = c.bytes_received;
    latency = some (latency_summary c.histogram);
    errors = map (λ q. record { error_class = q.0; count = q.1; detail = [] }) c.errors;
  }

  -- The reset for the next window.
  unfoldable pub reset : WindowedCollector → ℕ → WindowedCollector
  reset c now_unix_ms = record c {
    histogram = I.empty;
    total = 0;
    success = 0;
    failure = 0;
    bytes_received = 0;
    errors = [];
    window_start_ms = now_unix_ms;
    batch_seq = add64 c.batch_seq 1;
  }

  unfoldable pub take_batch : WindowedCollector → ℕ → WindowedCollector × Option MetricBatch
  take_batch c now_unix_ms =
      if c.total == 0 then (c, none) else (reset c now_unix_ms, some (window_batch c))

  -- A request is recorded, or the window closes at a time.
  pub data Event : Type 0 where
    records : RequestMetric → Event
    closes : ℕ → Event

  abbrev pub sent : Option MetricBatch → List MetricBatch → List MetricBatch
  sent none bs = bs
  sent (some b) bs = b ∷ bs

  -- The collector after the events, and the batches that it produced.
  unfoldable pub collect : WindowedCollector → List Event → WindowedCollector × List MetricBatch
  collect c [] = (c, [])
  collect c (records m ∷ es) = collect (record_metric c m) es
  collect c (closes now ∷ es) =
      let (next, batch) = take_batch c now in
      let (end, bs) = collect next es in (end, sent batch bs)
