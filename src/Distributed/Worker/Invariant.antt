-- ===== src/Distributed/Worker/Invariant.antt =====
-- What holds of the worker's control state of src/distributed/worker.rs after any events.
use strobengine.Prelude.{
  ℕ, suc, ◌<◌, ◌≡◌, ◌⊎◌, inl, inr, List, [], ◌∷◌, Option, none, some, arith, All, Option-cases,
}
use strobengine.Distributed.State.{ready, running, transition}
use strobengine.Distributed.Worker.{
  Task, Shared, new, set_state, cancel, remove, task_ends, begin_run, cancel_run, stop_run,
  start_run, start, start_missing, start_refused, stop, abort, unspecified, handle_command, proceed,
  synchronize, abort_run, unset, handle_directive, Event, command, directive, ends, step,
  run_events,
}

abbrev pub Below : ℕ → List Task → Type 0
Below n = All (λ t. t.id < n)

abbrev pub SlotBelow : ℕ → Option ℕ → Type 0
SlotBelow n none = Unit
SlotBelow n (some id) = id < n

-- The worker is ready or running, and every id in use was handed out.
pub record Inv (w : Shared) : Type 0 where
  pub state_used : (w.state ≡ ready) ⊎ (w.state ≡ running)
  pub tasks_below : Below w.next_id w.tasks
  pub run_below : SlotBelow w.next_id w.run

cancel-Below : (id n : ℕ) (ts : List Task) → Below n ts → Below n (cancel id ts)
unfolding cancel
cancel-Below id n [] h = tt
cancel-Below id n (t ∷ ts) h = ground (arith, cancel-Below id n ts h.1)

remove-Below : (id n : ℕ) (ts : List Task) → Below n ts → Below n (remove id ts)
unfolding remove
remove-Below id n [] h = tt
remove-Below id n (t ∷ ts) h = ground (arith, remove-Below id n ts h.1)

Below-suc : (n : ℕ) (ts : List Task) → Below n ts → Below (suc n) ts
Below-suc n [] h = tt
Below-suc n (t ∷ ts) h = (omega arith, Below-suc n ts h.1)

task_ends-Inv : (w : Shared) (id : ℕ) → Inv w → Inv (task_ends w id)
unfolding task_ends set_state transition
task_ends-Inv w id v = ground (arith, remove-Below id w.next_id w.tasks v.tasks_below)

cancel_run-Inv : (w : Shared) → Inv w → Inv (cancel_run w)
unfolding cancel_run
cancel_run-Inv w v = elim (Option-cases w.run) [
  | inl e ↦ rw (e, cancel_run) v
  | inr (id, e) ↦
      rw (e, cancel_run)
        (record {
          state_used = v.state_used;
          tasks_below = cancel-Below id w.next_id w.tasks v.tasks_below;
          run_below = v.run_below;
        })
]

stop_run-Inv : (w : Shared) → Inv w → Inv (stop_run w)
unfolding stop_run
stop_run-Inv w v = elim (Option-cases w.run) [
  | inl e ↦
      rw (e, stop_run)
        (record { state_used = v.state_used; tasks_below = v.tasks_below; run_below = v.run_below })
  | inr (id, e) ↦
      let stopped : Shared = record w { run = none; tasks = cancel id w.tasks } in
      let u = task_ends-Inv stopped id (record {
        state_used = v.state_used;
        tasks_below = cancel-Below id w.next_id w.tasks v.tasks_below;
        run_below = tt;
      }) in
      rw (e, stop_run)
        (record { state_used = u.state_used; tasks_below = u.tasks_below; run_below = u.run_below })
]

set_state_ready-Inv : (w : Shared) → Inv w → Inv (set_state w ready)
unfolding set_state transition
set_state_ready-Inv w v = ground arith

start_run-Inv : (w : Shared) (vus : ℕ) → Inv w → Inv (start_run w vus).0
unfolding start_run begin_run set_state transition
start_run-Inv w vus v = ground (arith, Below-suc w.next_id w.tasks v.tasks_below)

-- Every event keeps the invariant.
pub step-Inv : (w : Shared) (e : Event) → Inv w → Inv (step w e)
unfolding step handle_command handle_directive
step-Inv w (command start_missing) v = v
step-Inv w (command start_refused) v = v
step-Inv w (command (start vus)) v = start_run-Inv w vus v
step-Inv w (command stop) v = set_state_ready-Inv (stop_run w) (stop_run-Inv w v)
step-Inv w (command abort) v = set_state_ready-Inv (cancel_run w) (cancel_run-Inv w v)
step-Inv w (command unspecified) v = v
step-Inv w (directive proceed) v = v
step-Inv w (directive unset) v = v
step-Inv w (directive abort_run) v = cancel_run-Inv w v
step-Inv w (directive synchronize) v = stop_run-Inv w v
step-Inv w (ends id) v = task_ends-Inv w id v

pub run_events-Inv : (w : Shared) (es : List Event) → Inv w → Inv (run_events w es)
unfolding run_events
run_events-Inv w [] v = v
run_events-Inv w (e ∷ es) v = run_events-Inv (step w e) es (step-Inv w e v)

pub new-Inv : Inv new
unfolding new
new-Inv = ground arith
