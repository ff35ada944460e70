-- ===== src/Load/Tests.antt =====
-- Runs of the workers and of the supervisor of src/lib.rs, and their theorems at concrete runs.
use strobengine.Prelude.{ℕ, ◌+◌, ◌%◌, ◌≡◌, refl, true, false, List, [], ◌∷◌, none, map}
use strobengine.Prelude.Words.{u64_mod}
use strobengine.Config.{LoadProfile, ramp, total_duration, target_concurrency}
use strobengine.Metrics.Request.{RequestMetric, builder, status, bytes}
use strobengine.Metrics.Aggregate.{finalize_metrics}
use strobengine.Metrics.Aggregate.Common.{bytes as bytes_counter, with_status, count}
use strobengine.Distributed.Master.Pipeline.Tests.{whole_floats}
use strobengine.Distributed.Telemetry.Tests.{value_lists}
use strobengine.Load.Worker.{
  new_counters, LoadStep, starts, begins, completes, sends, leaves, count_steps, cancelled,
  has_metric, LoadRound, loop_steps, spawn_worker, none_left, left_first, right_first, RunsAs,
  no_workers, one_more,
}
use strobengine.Load.Counters.{cut_shorts}
use strobengine.Load.Refused.{metrics_of, refused, all_refused}
use strobengine.Load.Accounts.{requests_accounted, counters_agree}
use strobengine.Load.Supervisor.{Reading, new_supervisor, supervise}
use strobengine.Load.Scaling.{last_target, EndsWell, supervise-EndsWell}

abbrev ok_metric : RequestMetric
ok_metric = bytes 7 (status 200 (builder 1000 none))

-- A worker that is cancelled in its first iteration, and one that completes one.
abbrev cut : List LoadRound
cut = record { goes_on = true; ending = cancelled; taken = true } ∷ []

abbrev full : List LoadRound
full = record { goes_on = true; ending = has_metric ok_metric; taken = true } ∷ []

abbrev workers : List (List LoadRound)
workers = cut ∷ full ∷ []

abbrev interleaved : List LoadStep
interleaved =
    starts ∷ starts ∷ begins ∷ begins ∷ completes ok_metric ∷ sends ok_metric ∷ leaves ∷ leaves ∷ []

interleaved-RunsAs : RunsAs 5 workers interleaved
unfolding spawn_worker loop_steps
interleaved-RunsAs =
    one_more
      (one_more no_workers
        (left_first (left_first (left_first (left_first (left_first none_left))))))
      (left_first (
        right_first (
          left_first
            (right_first (right_first (right_first (left_first (right_first none_left))))))))

requests_accounted_example :
    ((count_steps new_counters interleaved).total_requests
      ≡ ((count_steps new_counters interleaved).completed_requests + cut_shorts workers) % u64_mod)
    × ((count_steps new_counters interleaved).active_workers ≡ 0)
requests_accounted_example = requests_accounted 5 workers interleaved interleaved-RunsAs

-- The same with a closed channel at the end: a worker whose second metric is refused.
abbrev lost : List LoadRound
lost =
    record { goes_on = true; ending = has_metric ok_metric; taken = true }
    ∷ record { goes_on = true; ending = has_metric ok_metric; taken = false }
    ∷ []

abbrev lost_steps : List LoadStep
lost_steps =
    starts
    ∷ begins
    ∷ completes ok_metric
    ∷ sends ok_metric
    ∷ begins
    ∷ completes ok_metric
    ∷ leaves
    ∷ []

lost_steps-RunsAs : RunsAs 5 (lost ∷ []) lost_steps
unfolding spawn_worker loop_steps
lost_steps-RunsAs = one_more no_workers (
    left_first
      (left_first (left_first (left_first (left_first (left_first (left_first none_left)))))))

-- The metric with the time at which it is received.
abbrev received_metrics : List (RequestMetric × ℕ)
received_metrics = (ok_metric, 5000) ∷ []

received_metrics_sent : map (λ m. m.0) received_metrics ≡ metrics_of lost_steps
unfolding metrics_of
received_metrics_sent = refl

counters_agree_example :
    ((count_steps new_counters lost_steps).bytes_received
      ≡ (count whole_floats value_lists bytes_counter
            (finalize_metrics whole_floats value_lists 1 0 received_metrics 9000).common
          + 7)
        % u64_mod)
    × ((count_steps new_counters lost_steps).completed_requests
        ≡ (count whole_floats value_lists
              (with_status (λ code. true))
              (finalize_metrics whole_floats value_lists 1 0 received_metrics 9000).common
            + 1)
          % u64_mod)
unfolding all_refused refused bytes
counters_agree_example =
    counters_agree whole_floats value_lists 5 (lost ∷ []) lost_steps received_metrics 1 0 9000
      lost_steps-RunsAs received_metrics_sent

-- Down from three workers to one.
abbrev down : LoadProfile
down = ramp 3 1 2 5

abbrev readings : List Reading
readings =
    record { elapsed_secs = 0; is_cancelled = false }
    ∷ record { elapsed_secs = 3; is_cancelled = false }
    ∷ record { elapsed_secs = 8; is_cancelled = false }
    ∷ []

supervise-EndsWell_example : EndsWell 1 (supervise whole_floats down readings new_supervisor)
unfolding last_target total_duration target_concurrency
supervise-EndsWell_example = supervise-EndsWell whole_floats down readings
