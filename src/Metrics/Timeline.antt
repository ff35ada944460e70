-- ===== src/Metrics/Timeline.antt =====
-- The timeline of src/metrics/timeline.rs and `TimelineAccumulator` of src/metrics/aggregate.rs. Times
-- are nanoseconds on the monotonic clock.
use strobengine.Prelude.{
  ℕ, ◌-◌, ◌*◌, Bool, List, [], ◌∷◌, ◌++◌, Option, max, ltb, not, ◌&&◌, ◌||◌, is_empty,
  if◌then◌else◌,
}
use strobengine.Prelude.Words.{add64}
use strobengine.Prelude.Maps.{nat_eq}
use strobengine.Prelude.Floats.{Floats}
use strobengine.Text.Compare.{bytes_eq}
use strobengine.Metrics.Histograms.{Histograms}
use strobengine.Metrics.Accumulators.{then_some}

module _ (R : Floats) (I : Histograms) where
  pub record TimelineSample : Type 0 where
    pub elapsed_sec : R.F
    pub rps : R.F
    pub error_rate : R.F
    pub p50_us : R.F
    pub p95_us : R.F
    pub p99_us : R.F

  unfoldable pub make_timeline_sample : R.F → ℕ → ℕ → R.F → I.H → TimelineSample
  make_timeline_sample elapsed_sec requests errors interval_secs histogram = record {
    elapsed_sec = elapsed_sec;
    rps =
        if R.is_positive interval_secs
        then R.div (R.of_u64 requests) interval_secs
        else R.ratio 0 1;
    error_rate =
        if ltb 0 requests
        then R.mul (R.div (R.of_u64 errors) (R.of_u64 requests)) (R.ratio 100 1)
        else R.ratio 0 1;
    p50_us = R.of_u64 (I.value_at_quantile histogram 50 100);
    p95_us = R.of_u64 (I.value_at_quantile histogram 95 100);
    p99_us = R.of_u64 (I.value_at_quantile histogram 99 100);
  }

  pub record Timeline : Type 0 where
    pub interval_ms : ℕ
    pub samples : List TimelineSample

  pub record TimelineAccumulator : Type 0 where
    pub enabled : Bool
    pub interval_ms : ℕ
    pub sample_interval : ℕ
    pub run_start : ℕ
    pub last_sample_at : ℕ
    pub samples : List TimelineSample
    pub histogram : I.H
    pub requests : ℕ
    pub errors : ℕ

  -- `TimelineAccumulator::new`, at the time `now`.
  unfoldable pub new_timeline : ℕ → ℕ → TimelineAccumulator
  new_timeline timeline_interval_ms now = record {
    enabled = ltb 0 timeline_interval_ms;
    interval_ms = timeline_interval_ms;
    sample_interval = max timeline_interval_ms 1 * 1000000;
    run_start = now;
    last_sample_at = now;
    samples = [];
    histogram = I.empty;
    requests = 0;
    errors = 0;
  }

  unfoldable pub record_latency : TimelineAccumulator → ℕ → Bool → TimelineAccumulator
  record_latency t latency_us failed =
      if t.enabled
      then (record t {
        histogram = I.saturating_record t.histogram latency_us;
        requests = add64 t.requests 1;
        errors = if failed then add64 t.errors 1 else t.errors;
      })
      else t

  -- `duration.as_secs_f64()`
  abbrev secs : ℕ → R.F
  secs ns = R.div (R.of_u64 ns) (R.ratio 1000000000 1)

  unfoldable pub maybe_emit : TimelineAccumulator → ℕ → TimelineAccumulator
  maybe_emit t now =
      if not t.enabled || ltb (now - t.last_sample_at) t.sample_interval then t else (record t {
        samples =
            if ltb 0 t.requests
            then t.samples
              ++ make_timeline_sample (secs (now - t.run_start)) t.requests t.errors
                  (secs (now - t.last_sample_at)) t.histogram
                ∷ []
            else t.samples;
        histogram = I.empty;
        requests = 0;
        errors = 0;
        last_sample_at = now;
      })

  unfoldable pub finish_timeline : TimelineAccumulator → ℕ → Option Timeline
  finish_timeline t now =
      let samples =
        if t.enabled && ltb 0 t.requests
        then t.samples
          ++ make_timeline_sample (secs (now - t.run_start)) t.requests t.errors
              (R.greatest (secs (now - t.last_sample_at)) (R.ratio 1 1000000000)) t.histogram
            ∷ []
        else t.samples in
      then_some (t.enabled && not (is_empty samples))
        (record { interval_ms = t.interval_ms; samples = samples })
