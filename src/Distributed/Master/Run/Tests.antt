-- ===== src/Distributed/Master/Run/Tests.antt =====
-- Runs of the active run's slot of src/distributed/master/run.rs.
use strobengine.Prelude.{◌≡◌, inl, inr, none, List, [], ◌∷◌, arith}
use strobengine.Prelude.Totals.{sum_where}
use strobengine.Text.Utf8.{Bytes}
use strobengine.Text.Compare.{same}
use strobengine.Distributed.Master.Metrics.{MetricBatch}
use strobengine.Distributed.Master.Pipeline.Report.{GlobalReport}
use strobengine.Distributed.Master.Pipeline.Tests.{whole_floats, batch as batch_at}
use strobengine.Distributed.Master.Run.{
  Event, batch, ack, closed, install, finish, done, failed, pipeline_stopped, handle_all,
}
use strobengine.Distributed.Master.Run.Ownership.{batches_of, finish-install, finish-stopped}

-- The ids of the run and of a stray one.
abbrev run_r : Bytes
run_r = 114 ∷ []

abbrev stray : MetricBatch
stray = record (batch_at 50 10000 7) { test_run_id = 115 ∷ [] }

abbrev events : List (Event whole_floats)
events =
    batch (batch_at 49 10000 10)
    ∷ ack (99 ∷ []) (49 ∷ [])
    ∷ batch stray
    ∷ batch (batch_at 49 11000 5)
    ∷ closed (49 ∷ [])
    ∷ []

finish-install_example :
    (report : GlobalReport whole_floats) × (finish whole_floats
        (λ class. none)
        (handle_all whole_floats (install whole_floats none run_r ((49 ∷ []) ∷ []) 10 5).0 events)
      ≡ (none, done report))
    × (report.test_run_id ≡ run_r)
    × (report.total_requests ≡ 15)
unfolding sum_where batches_of same
finish-install_example =
    finish-install whole_floats run_r (49 ∷ []) [] 10 5 (λ class. none) events
      (omega arith, omega arith) (omega arith, (omega arith, tt))

-- The worker's clock is five seconds above the least i64, and the window has ten.
abbrev with_early : List (Event whole_floats)
with_early =
    batch (batch_at 49 10000 10)
    ∷ batch (batch_at 49 9223372036854780808 5)
    ∷ batch (batch_at 49 11000 5)
    ∷ []

finish-stopped_example :
    finish whole_floats
      (λ class. none)
      (handle_all whole_floats
        (install whole_floats none run_r ((49 ∷ []) ∷ []) 10 10).0
        with_early)
    ≡ (none, failed pipeline_stopped)
unfolding batches_of same
finish-stopped_example =
    finish-stopped whole_floats run_r (49 ∷ []) [] 10 10 (λ class. none) with_early
      (omega arith, omega arith) (inr (inl (omega arith, omega arith)))
