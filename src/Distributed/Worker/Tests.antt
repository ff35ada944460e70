-- ===== src/Distributed/Worker/Tests.antt =====
-- Runs of the worker daemon's control state of src/distributed/worker.rs.
use strobengine.Prelude.{◌≡◌, refl, [], ◌∷◌, some, none, true}
use strobengine.Distributed.State.{transition}
use strobengine.Distributed.Worker.{
  Shared, new, set_state, begin_run, start_run, rejected, start, stop, abort, handle_command,
  command, ends, step, run_events,
}
use strobengine.Distributed.Worker.Invariant.{Inv, new-Inv, run_events-Inv}
use strobengine.Distributed.Worker.Leak.{
  stop_ends_run, start_after_run_rejected, runs_on, rejected_start_runs_on,
}

-- One START of four users was accepted.
abbrev started : Shared
started = (handle_command new (start 4)).0

started-Inv : Inv started
unfolding step run_events
started-Inv = run_events-Inv new (command (start 4) ∷ []) new-Inv

started_run : started.run ≡ some 0
unfolding new handle_command start_run begin_run set_state transition
started_run = refl

stop_ends_run_example : (handle_command started stop).0.run ≡ none
stop_ends_run_example = (stop_ends_run started started-Inv).0

-- The run of the first START ends by itself; the next START is rejected all the same.
start_after_run_rejected_example :
    (handle_command (run_events started (ends 0 ∷ [])) (start 1)).1 ≡ rejected
start_after_run_rejected_example =
    start_after_run_rejected new 4 1 (ends 0 ∷ [])
      (unfold new handle_command start_run begin_run set_state transition in refl)
      (((λ e. cc), (λ e. cc)), tt)

started_next : started.next_id ≡ 1
unfolding new handle_command start_run begin_run set_state transition
started_next = refl

rejected_start_runs_on_example :
    ((handle_command started (start 9)).1 ≡ rejected)
    × (runs_on started.next_id
          (run_events
            (handle_command started (start 9)).0
            (command abort ∷ command stop ∷ ends 0 ∷ [])).tasks
        ≡ true)
rejected_start_runs_on_example =
    rejected_start_runs_on started 9 0 (command abort ∷ command stop ∷ ends 0 ∷ []) started-Inv
      started_run ((λ e. cc), ((λ e. cc), ((λ e. cc (started_next)), tt)))
