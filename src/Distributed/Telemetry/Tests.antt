-- ===== src/Distributed/Telemetry/Tests.antt =====
-- Runs of the windowed collector of src/distributed/telemetry.rs, with a list of values in place of
-- its histogram.
use strobengine.Prelude.{ℕ, ◌≡◌, true, none, List, [], ◌∷◌, ◌++◌, length, map}
use strobengine.Prelude.Words.{add64}
use strobengine.Prelude.Totals.{sum_where}
use strobengine.Metrics.Histograms.{Histograms}
use strobengine.Metrics.Request.{RequestMetric, builder, status, bytes}
use strobengine.Distributed.Telemetry.{new, Event, records, closes, collect}
use strobengine.Distributed.Telemetry.Conservation.{recorded, requests_conserved}

abbrev pub value_lists : Histograms
value_lists = record {
  H = List ℕ;
  empty = [];
  saturating_record = λ h v. h ++ v ∷ [];
  iter_recorded = map (λ v. (v, 1));
  len = length;
  lowest = λ h. 0;
  highest = λ h. 0;
  mean = λ h. 0;
  stdev = λ h. 0;
  value_at_quantile = λ h a b. 0;
  as_ms = λ v. v;
}

metric : ℕ → RequestMetric
metric code = bytes 10 (status code (builder 1500 none))

-- Two windows with requests, one empty, and an open one.
abbrev events : List (Event value_lists)
events =
    records (metric 200)
    ∷ records (metric 500)
    ∷ closes 2000
    ∷ closes 3000
    ∷ records (metric 404)
    ∷ closes 4000
    ∷ records (metric 200)
    ∷ []

requests_conserved_example :
    add64
      (sum_where
        (λ b. true)
        (λ b. b.total_requests)
        0
        (collect value_lists (new value_lists [] [] 1000) events).1)
      (collect value_lists (new value_lists [] [] 1000) events).0.total
    ≡ 4
unfolding recorded
requests_conserved_example = requests_conserved value_lists [] [] 1000 events
