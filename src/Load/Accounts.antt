-- ===== src/Load/Accounts.antt =====
-- The counters of a local run, src/lib.rs, and the report that finalize_metrics of
-- src/metrics/aggregate.rs makes of the metrics that its workers send.
use strobengine.Prelude.{ℕ, ◌+◌, ◌%◌, ◌≡◌, refl, ap, true, List, [], ◌∷◌, arith, map}
use strobengine.Prelude.Words.{u64_mod}
use strobengine.Prelude.Totals.{sum_where}
use strobengine.Prelude.Floats.{Floats}
use strobengine.Metrics.Histograms.{Histograms}
use strobengine.Metrics.Request.{RequestMetric}
use strobengine.Metrics.Aggregate.{finalize_metrics}
use strobengine.Metrics.Aggregate.Common.{bytes, with_status, count, is_counted, amount, counted}
use strobengine.Load.Worker.{new_counters, LoadStep, count_steps, LoadRound, RunsAs}
use strobengine.Load.Counters.{
  total_of, worker_total, total_of-RunsAs, counter-count_steps, is_begun, is_completed, is_active,
  weighs, sent_weight, has_bytes, total_requests-Adds, completed_requests-Adds, bytes_received-Adds,
  active_workers-Adds, cut_shorts, loop-totals,
}
use strobengine.Load.Refused.{
  spawned, metrics_of, all_refused, workers-refused, sum_over, sum_over-metrics_of,
  sum_where-sum_over,
}

workers-totals :
    (t : ℕ) (workers : List (List LoadRound))
    → (worker_total t is_begun workers ≡ worker_total t is_completed workers + cut_shorts workers)
      × (worker_total t is_active workers % u64_mod ≡ 0)
unfolding worker_total cut_shorts
workers-totals t [] = (refl, refl)
workers-totals t (rounds ∷ others) =
    let rest = workers-totals t others in
    let one = loop-totals t rounds in
    (
      omega (arith, rest.0, one.0, spawned is_begun t rounds, spawned is_completed t rounds),
      omega (arith, rest.1, one.1, spawned is_active t rounds),
    )

-- At the end of a run, however its workers interleave, no worker is counted as active, and the
-- requests counted are those completed and, for each worker whose last iteration was cancelled, one
-- more, modulo 2 ^ 64.
pub requests_accounted :
    (t : ℕ) (workers : List (List LoadRound)) (all : List LoadStep)
    → RunsAs t workers all
    → ((count_steps new_counters all).total_requests
        ≡ ((count_steps new_counters all).completed_requests + cut_shorts workers) % u64_mod)
      × ((count_steps new_counters all).active_workers ≡ 0)
unfolding new_counters
requests_accounted t workers all p =
    let totals = workers-totals t workers in
    (
      omega (
        arith,
        totals.0,
        total_of-RunsAs t is_begun p,
        total_of-RunsAs t is_completed p,
        counter-count_steps (λ c. c.total_requests) is_begun new_counters all total_requests-Adds
            (omega arith),
        counter-count_steps (λ c. c.completed_requests) is_completed new_counters all
            completed_requests-Adds (omega arith),
      ),
      omega (
        arith,
        totals.1,
        total_of-RunsAs t is_active p,
        counter-count_steps (λ c. c.active_workers) is_active new_counters all active_workers-Adds
            (omega arith),
      ),
    )

-- What the report has received, with what the channel refused, is what the workers have counted.
received-refused :
    (f : RequestMetric → ℕ) (t : ℕ) (workers : List (List LoadRound)) (all : List LoadStep)
    (ms : List (RequestMetric × ℕ))
    → RunsAs t workers all
    → map (λ m. m.0) ms ≡ metrics_of all
    → (sum_where (λ m. true) (λ m. f m.0) 0 ms + all_refused f t workers) % u64_mod
      ≡ total_of (weighs f) all % u64_mod
received-refused f t workers all ms p e = omega (
  arith,
  sum_where-sum_over f 0 ms (omega arith),
  ap (sum_over f) e,
  sum_over-metrics_of f all,
  total_of-RunsAs t (weighs f) p,
  total_of-RunsAs t (sent_weight f) p,
  workers-refused f t workers,
)

module _ (R : Floats) (I : Histograms) where
  -- However the workers interleave, when the report is made of the metrics that the channel has
  -- taken, the counters that the workers share are, modulo 2 ^ 64, what the report has and what
  -- the channel refused: so for the bytes received, and for the requests completed, which the report
  -- has by all status codes.
  pub counters_agree :
      (t : ℕ) (workers : List (List LoadRound)) (all : List LoadStep)
      (ms : List (RequestMetric × ℕ)) (timeline_interval_ms start end : ℕ)
      → RunsAs t workers all
      → map (λ m. m.0) ms ≡ metrics_of all
      → ((count_steps new_counters all).bytes_received
          ≡ (count R I bytes (finalize_metrics R I timeline_interval_ms start ms end).common
              + all_refused (λ m. m.bytes_received) t workers)
            % u64_mod)
        × ((count_steps new_counters all).completed_requests
            ≡ (count R I
                  (with_status (λ code. true))
                  (finalize_metrics R I timeline_interval_ms start ms end).common
                + all_refused (λ m. 1) t workers)
              % u64_mod)
  unfolding new_counters is_counted amount
  counters_agree t workers all ms interval start end p e = (
    omega (
      arith,
      counted R I bytes interval start end ms,
      received-refused (λ m. m.bytes_received) t workers all ms p e,
      counter-count_steps (λ c. c.bytes_received) has_bytes new_counters all bytes_received-Adds
          (omega arith),
    ),
    omega (
      arith,
      counted R I (with_status (λ code. true)) interval start end ms,
      received-refused (λ m. 1) t workers all ms p e,
      counter-count_steps (λ c. c.completed_requests) is_completed new_counters all
          completed_requests-Adds (omega arith),
    ),
  )
