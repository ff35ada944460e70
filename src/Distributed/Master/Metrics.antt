-- ===== src/Distributed/Master/Metrics.antt =====
-- `Metrics` and `approx_percentile` of src/distributed/master/pipeline.rs, over the messages of
-- proto/loadtesting/v1/load_test_controller.proto. A hash map is an association list, an f32 is
-- its bits, an i32 class is its word. Where the source indexes `buckets`, `add_counts` stops at
-- the end of the shorter list.
pub mod Counts
pub mod Merging
use strobengine.Prelude.{
  ℕ, zero, suc, ◌+◌, Bool, true, false, List, [], ◌∷◌, Option, none, some, ltb, ◌==◌, if◌then◌else◌,
  take, replicate, get_elem?,
}
use strobengine.Prelude.Words.{add64}
use strobengine.Prelude.Maps.{nat_eq, upsert, or_default}
use strobengine.Prelude.Floats.{Floats}
use strobengine.Text.Utf8.{Bytes}

pub record ErrorBreakdown : Type 0 where
  pub error_class : ℕ
  pub count : ℕ
  pub detail : Bytes

-- The fields that the master reads.
pub record LatencySummary : Type 0 where
  pub min_ms : ℕ
  pub max_ms : ℕ
  pub sample_count : ℕ
  pub bucket_counts : List ℕ

pub record MetricBatch : Type 0 where
  pub worker_id : Bytes
  pub test_run_id : Bytes
  pub window_start_unix_ms : ℕ
  pub total_requests : ℕ
  pub success_count : ℕ
  pub failure_count : ℕ
  pub bytes_received : ℕ
  pub latency : Option LatencySummary
  pub errors : List ErrorBreakdown

-- `buckets[index] += count`, as far as both reach.
unfoldable pub add_counts : List ℕ → List ℕ → List ℕ
add_counts [] ys = []
add_counts (x ∷ xs) [] = x ∷ xs
add_counts (x ∷ xs) (y ∷ ys) = add64 x y ∷ add_counts xs ys

unfoldable pub add_errors : List (ℕ × ℕ) → List ErrorBreakdown → List (ℕ × ℕ)
add_errors m [] = m
add_errors m (e ∷ es) = add_errors (upsert e.error_class 0 (λ n. add64 n e.count) m) es

unfoldable pub merge_errors : List (ℕ × ℕ) → List (ℕ × ℕ) → List (ℕ × ℕ)
merge_errors m [] = m
merge_errors m ((class, count) ∷ es) = merge_errors (upsert class 0 (λ n. add64 n count) m) es

-- `buckets.iter().sum()`
unfoldable pub sum_counts : ℕ → List ℕ → ℕ
sum_counts acc [] = acc
sum_counts acc (n ∷ ns) = sum_counts (add64 acc n) ns

module _ (R : Floats) where
  pub record Metrics : Type 0 where
    pub total : ℕ
    pub success : ℕ
    pub failure : ℕ
    pub bytes : ℕ
    pub buckets : List ℕ
    pub sample_count : ℕ
    pub min_ms : Option R.F
    pub max_ms : Option R.F
    pub errors : List (ℕ × ℕ)

  -- `Some(current.map_or(x, |current| f(current, x)))`
  unfoldable pub fold_bound : (R.F → R.F → R.F) → Option R.F → R.F → Option R.F
  fold_bound f none x = some x
  fold_bound f (some current) x = some (f current x)

  -- `Metrics::new`
  unfoldable pub new_metrics : ℕ → Metrics
  new_metrics bucket_count = record {
    total = 0;
    success = 0;
    failure = 0;
    bytes = 0;
    buckets = replicate bucket_count 0;
    sample_count = 0;
    min_ms = none;
    max_ms = none;
    errors = [];
  }

  unfoldable pub merge_latency : Metrics → Option LatencySummary → ℕ → Metrics
  merge_latency m none bucket_count = m
  merge_latency m (some latency) bucket_count = record m {
    buckets = add_counts m.buckets (take bucket_count latency.bucket_counts);
    sample_count = add64 m.sample_count latency.sample_count;
    min_ms = fold_bound R.least m.min_ms (R.of_f32 latency.min_ms);
    max_ms = fold_bound R.greatest m.max_ms (R.of_f32 latency.max_ms);
  }

  unfoldable pub merge_batch : Metrics → MetricBatch → ℕ → Metrics
  merge_batch m batch bucket_count =
      let counted = record m {
        total = add64 m.total batch.total_requests;
        success = add64 m.success batch.success_count;
        failure = add64 m.failure batch.failure_count;
        bytes = add64 m.bytes batch.bytes_received;
      } in
      let timed = merge_latency counted batch.latency bucket_count in
      record timed { errors = add_errors timed.errors batch.errors }

  unfoldable pub merge_bound : (R.F → R.F → R.F) → Option R.F → Option R.F → Option R.F
  merge_bound f current none = current
  merge_bound f current (some x) = fold_bound f current x

  unfoldable pub merge : Metrics → Metrics → Metrics
  merge m other = record {
    total = add64 m.total other.total;
    success = add64 m.success other.success;
    failure = add64 m.failure other.failure;
    bytes = add64 m.bytes other.bytes;
    buckets = add_counts m.buckets other.buckets;
    sample_count = add64 m.sample_count other.sample_count;
    min_ms = merge_bound R.least m.min_ms other.min_ms;
    max_ms = merge_bound R.greatest m.max_ms other.max_ms;
    errors = merge_errors m.errors other.errors;
  }

  unfoldable pub error_rate_percent : Metrics → R.F
  error_rate_percent m =
      if ltb 0 m.total
      then R.mul (R.div (R.of_u64 m.failure) (R.of_u64 m.total)) (R.ratio 100 1)
      else R.ratio 0 1

  -- `BUCKET_BOUNDS_MS`
  abbrev bucket_bounds : List R.F
  bucket_bounds =
      R.ratio 0 1
      ∷ R.ratio 1 1
      ∷ R.ratio 5 1
      ∷ R.ratio 10 1
      ∷ R.ratio 25 1
      ∷ R.ratio 50 1
      ∷ R.ratio 100 1
      ∷ R.ratio 250 1
      ∷ R.ratio 500 1
      ∷ R.ratio 1000 1
      ∷ R.infinity
      ∷ []

  abbrev bound_at : ℕ → R.F → R.F
  bound_at i default = or_default (get_elem? bucket_bounds i) default

  -- The value inside the bucket `index`, which starts at the `cumulative` count.
  unfoldable pub interpolate : ℕ → ℕ → ℕ → R.F → R.F → R.F
  interpolate index count cumulative target fallback_max =
      let lo = bound_at index (R.ratio 0 1) in
      let top = bound_at (index + 1) fallback_max in
      let hi = if R.is_finite top then top else R.greatest fallback_max lo in
      let within = R.div (R.sub target (R.of_u64 cumulative)) (R.of_u64 count) in
      R.add lo (R.mul (R.sub hi lo) (R.clamp within (R.ratio 0 1) (R.ratio 1 1)))

  -- The loop of `approx_percentile` from the bucket `index` on.
  unfoldable pub scan_buckets : List ℕ → ℕ → ℕ → R.F → R.F → R.F
  scan_buckets [] index cumulative target fallback_max = fallback_max
  scan_buckets (count ∷ counts) index cumulative target fallback_max = elim (count == 0) [
    | true ↦ scan_buckets counts (index + 1) cumulative target fallback_max
    | false ↦ elim (R.at_least (R.add (R.of_u64 cumulative) (R.of_u64 count)) target) [
      | true ↦ interpolate index count cumulative target fallback_max
      | false ↦ scan_buckets counts (index + 1) (add64 cumulative count) target fallback_max
    ]
  ]

  unfoldable pub approx_percentile : List ℕ → R.F → R.F → R.F
  approx_percentile buckets percentile fallback_max =
      let total = sum_counts 0 buckets in
      if total == 0
      then R.ratio 0 1
      else scan_buckets buckets 0 0 (R.mul percentile (R.of_u64 total)) fallback_max

  pub record GlobalLatency : Type 0 where
    pub p50_ms : R.F
    pub p90_ms : R.F
    pub p95_ms : R.F
    pub p99_ms : R.F
    pub min_ms : R.F
    pub max_ms : R.F
    pub sample_count : ℕ
    pub bucket_counts : List ℕ

  unfoldable pub latency : Metrics → GlobalLatency
  latency m =
      let fallback_max = or_default m.max_ms R.infinity in
      record {
        p50_ms = approx_percentile m.buckets (R.ratio 50 100) fallback_max;
        p90_ms = approx_percentile m.buckets (R.ratio 90 100) fallback_max;
        p95_ms = approx_percentile m.buckets (R.ratio 95 100) fallback_max;
        p99_ms = approx_percentile m.buckets (R.ratio 99 100) fallback_max;
        min_ms = or_default m.min_ms (R.ratio 0 1);
        max_ms = or_default m.max_ms (R.ratio 0 1);
        sample_count = m.sample_count;
        bucket_counts = m.buckets;
      }
