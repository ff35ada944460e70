-- ===== src/Distributed/Master/Pipeline/Report.antt =====
-- The final report of src/distributed/master/pipeline.rs: `finalize`, `timeline` and
-- `worker_shares`, with the types of src/distributed/master/reporting.rs. `class_name` is what the
-- generated `ErrorClass` makes of a number: the name of its variant, or none.
use strobengine.Prelude.{
  ℕ, zero, suc, ◌+◌, ◌-◌, ◌/◌, ◌%◌, ◌^◌, ◌&&◌, ◌||◌, not, Bool, List, [], ◌∷◌, ◌++◌, Option, none,
  some, ltb, ◌==◌, if◌then◌else◌, length, map,
}
use strobengine.Prelude.Words.{add64, sub64, i64_lt}
use strobengine.Prelude.Order.{sort_by}
use strobengine.Prelude.Floats.{Floats}
use strobengine.Text.Utf8.{Bytes}
use strobengine.Text.Compare.{le_text}
use strobengine.Text.Sort.{sort}
use strobengine.Distributed.Master.Metrics.{Metrics, GlobalLatency, latency, error_rate_percent}
use strobengine.Distributed.Master.Pipeline.{TelemetryPipeline, epoch_ms, elapsed_secs, per_second}

-- The decimal digits of a number below 10 ^ fuel.
unfoldable pub digits : ℕ → ℕ → Bytes
digits zero n = []
digits (suc fuel) n =
    let front = digits fuel (n / 10) in
    if ltb n 10 then (b'0' + n) ∷ [] else front ++ (b'0' + n % 10) ∷ []

-- An i32, by its 32-bit word, in decimal.
unfoldable pub print_i32 : ℕ → Bytes
print_i32 w = if ltb w (2 ^ 31) then digits 10 w else b'-' ∷ digits 10 (2 ^ 32 - w)

-- `format!("UNKNOWN({class})")`
unfoldable pub unknown_class : ℕ → Bytes
unknown_class class =
    b'U' ∷ b'N' ∷ b'K' ∷ b'N' ∷ b'O' ∷ b'W' ∷ b'N' ∷ b'(' ∷ print_i32 class ++ b')' ∷ []

pub record ErrorClassCount : Type 0 where
  pub error_class : Bytes
  pub count : ℕ

-- `b.0.cmp(&a.0).then(a.1.cmp(&b.1))` is less: the larger number first, then the smaller text.
unfoldable pub ranks_before : ℕ × Bytes → ℕ × Bytes → Bool
ranks_before (m, a) (n, b) = ltb n m || m == n && not (le_text b a)

unfoldable pub name_class : (ℕ → Option Bytes) → ℕ → Bytes
name_class class_name class = elim (class_name class) [
  | none ↦ unknown_class class
  | some name ↦ name
]

unfoldable pub error_breakdown : (ℕ → Option Bytes) → List (ℕ × ℕ) → List ErrorClassCount
error_breakdown class_name errors =
    sort_by (λ a b. ranks_before (a.count, a.error_class) (b.count, b.error_class))
      (map (λ q. record { error_class = name_class class_name q.0; count = q.1 }) errors)

module _ (R : Floats) where
  pub record TimelinePoint : Type 0 where
    pub elapsed_secs : R.F
    pub epoch_ms : ℕ
    pub rps : R.F
    pub error_rate_percent : R.F
    pub p50_ms : R.F
    pub p95_ms : R.F
    pub p99_ms : R.F

  pub record WorkerShare : Type 0 where
    pub worker_id : Bytes
    pub total_requests : ℕ
    pub success_count : ℕ
    pub failure_count : ℕ
    pub error_rate_percent : R.F
    pub rps : R.F
    pub share_percent : R.F
    pub p95_ms : R.F

  pub record GlobalReport : Type 0 where
    pub test_run_id : Bytes
    pub workers : List Bytes
    pub worker_count : ℕ
    pub batches : ℕ
    pub total_requests : ℕ
    pub success_count : ℕ
    pub failure_count : ℕ
    pub error_rate_percent : R.F
    pub bytes_received : ℕ
    pub rps : R.F
    pub duration_secs : R.F
    pub latency : GlobalLatency R
    pub error_breakdown : List ErrorClassCount
    pub timeline : List TimelinePoint
    pub worker_shares : List WorkerShare

  unfoldable pub timeline_point : TelemetryPipeline R → ℕ × Metrics R → TimelinePoint
  timeline_point p (epoch, m) =
      let timing = latency R m in
      record {
        elapsed_secs = elapsed_secs R p epoch;
        epoch_ms = epoch;
        rps = per_second R m.total (R.div (R.of_i64 epoch_ms) (R.ratio 1000 1));
        error_rate_percent = error_rate_percent R m;
        p50_ms = timing.p50_ms;
        p95_ms = timing.p95_ms;
        p99_ms = timing.p99_ms;
      }

  unfoldable pub timeline : TelemetryPipeline R → List TimelinePoint
  timeline p = map (timeline_point p) p.epochs

  unfoldable pub worker_share : ℕ → R.F → Bytes × Metrics R → WorkerShare
  worker_share total_all duration_secs (id, m) =
      let timing = latency R m in
      record {
        worker_id = id;
        total_requests = m.total;
        success_count = m.success;
        failure_count = m.failure;
        error_rate_percent = error_rate_percent R m;
        rps = per_second R m.total duration_secs;
        share_percent =
            if ltb 0 total_all
            then R.mul (R.div (R.of_u64 m.total) (R.of_u64 total_all)) (R.ratio 100 1)
            else R.ratio 0 1;
        p95_ms = timing.p95_ms;
      }

  abbrev pub share_before : WorkerShare → WorkerShare → Bool
  share_before a b = ranks_before (a.total_requests, a.worker_id) (b.total_requests, b.worker_id)

  unfoldable pub worker_shares : TelemetryPipeline R → R.F → List WorkerShare
  worker_shares p duration_secs =
      sort_by share_before (map (worker_share p.cumulative.total duration_secs) p.workers)

  -- `keys().next_back()`
  unfoldable pub last_key : List (ℕ × Metrics R) → Option ℕ
  last_key [] = none
  last_key ((k, m) ∷ []) = some k
  last_key (q ∷ r ∷ m) = last_key (r ∷ m)

  unfoldable pub duration : Option ℕ → Option ℕ → R.F
  duration (some start) (some last) =
      if i64_lt last start
      then R.ratio 0 1
      else R.div (R.of_i64 (add64 (sub64 last start) epoch_ms)) (R.ratio 1000 1)
  duration _ _ = R.ratio 0 1

  unfoldable pub finalize : (ℕ → Option Bytes) → TelemetryPipeline R → GlobalReport
  finalize class_name p =
      let total = p.cumulative in
      let secs = duration p.started_at_ms (last_key p.epochs) in
      let ids = sort (map (λ q. q.0) p.workers) in
      record {
        test_run_id = p.run_id;
        workers = ids;
        worker_count = length ids;
        batches = p.batches;
        total_requests = total.total;
        success_count = total.success;
        failure_count = total.failure;
        error_rate_percent = error_rate_percent R total;
        bytes_received = total.bytes;
        rps = per_second R total.total secs;
        duration_secs = secs;
        latency = latency R total;
        error_breakdown = error_breakdown class_name total.errors;
        timeline = timeline p;
        worker_shares = worker_shares p secs;
      }
