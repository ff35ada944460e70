-- ===== src/Distributed/Worker.antt =====
-- The worker daemon's control state, `Shared` of src/distributed/worker.rs, and the handlers that
-- change it. A spawned run is a task with an id; its cancellation token is the flag `cancelled`.
-- A handler runs to its end before the next event, with one exception that is an event of its
-- own: a task ends (`task_ends`) when it chooses to.
pub mod Invariant
pub mod Leak
mod Tests
use strobengine.Prelude.{
  ℕ, suc, ◌+◌, ◌≡◌, Bool, true, false, List, [], ◌∷◌, ◌++◌, Option, none, some, ◌==◌, if◌then◌else◌,
}
use strobengine.Distributed.State.{WorkerState, ready, running, transition}

-- A spawned `run_orchestrator` that has not ended.
pub record Task : Type 0 where
  pub id : ℕ
  pub cancelled : Bool

pub record Shared : Type 0 where
  pub state : WorkerState
  pub active_vus : ℕ
  pub run : Option ℕ
  pub tasks : List Task
  pub next_id : ℕ

-- `Shared::new`
unfoldable pub new : Shared
new = record { state = ready; active_vus = 0; run = none; tasks = []; next_id = 0 }

-- An illegal transition is logged and ignored.
unfoldable pub set_state : Shared → WorkerState → Shared
set_state w next = record w { state = (transition w.state next).0 }

unfoldable pub cancel : ℕ → List Task → List Task
cancel id [] = []
cancel id (t ∷ ts) = (if t.id == id then record t { cancelled = true } else t) ∷ cancel id ts

unfoldable pub remove : ℕ → List Task → List Task
remove id [] = []
remove id (t ∷ ts) = if t.id == id then remove id ts else t ∷ remove id ts

unfoldable pub is_live : ℕ → List Task → Bool
is_live id [] = false
is_live id (t ∷ ts) = if t.id == id then true else is_live id ts

-- What a run does last: the end of `run_orchestrator`.
unfoldable pub task_ends : Shared → ℕ → Shared
task_ends w id =
    if is_live id w.tasks
    then set_state (record w { tasks = remove id w.tasks; active_vus = 0 }) ready
    else w

unfoldable pub begin_run : Shared → ℕ → Shared × Bool
begin_run w id = elim w.run [ some _ ↦ (w, false) | none ↦ (record w { run = some id }, true) ]

unfoldable pub cancel_run : Shared → Shared
cancel_run w = elim w.run [ none ↦ w | some id ↦ record w { tasks = cancel id w.tasks } ]

-- The slot is emptied, its run is cancelled and awaited.
unfoldable pub stop_run : Shared → Shared
stop_run w = elim w.run [
  | none ↦ record w { active_vus = 0 }
  | some id ↦ record (task_ends (record w { run = none; tasks = cancel id w.tasks }) id) {
    active_vus = 0;
  }
]

pub data CommandStatus : Type 0 where
  acknowledged rejected failed completed : CommandStatus

-- The task is spawned before the slot is tried.
unfoldable pub start_run : Shared → ℕ → Shared × CommandStatus
start_run w virtual_users =
    let spawned = record w {
      tasks = record { id = w.next_id; cancelled = false } ∷ w.tasks;
      next_id = suc w.next_id;
    } in
    let (begun, accepted) = begin_run spawned w.next_id in
    if accepted
    then (record (set_state begun running) { active_vus = virtual_users }, acknowledged)
    else (begun, rejected)

-- A command, with what `ExecutionPlan::from_proto` makes of a START: no configuration, a refused
-- one, or a plan with its number of virtual users.
pub data Command : Type 0 where
  start_missing start_refused : Command
  start : ℕ → Command
  stop abort unspecified : Command

-- `handle_command`, with the status of its acknowledgement.
unfoldable pub handle_command : Shared → Command → Shared × CommandStatus
handle_command w start_missing = (w, rejected)
handle_command w start_refused = (w, failed)
handle_command w (start virtual_users) = start_run w virtual_users
handle_command w stop = (set_state (stop_run w) ready, completed)
handle_command w abort = (set_state (cancel_run w) ready, completed)
handle_command w unspecified = (w, rejected)

-- The directive that the master answers a heartbeat with.
pub data HeartbeatDirective : Type 0 where
  proceed synchronize abort_run unset : HeartbeatDirective

-- The heartbeat loop goes on with the new state, or ends the session.
unfoldable pub handle_directive : Shared → HeartbeatDirective → Option Shared
handle_directive w proceed = some w
handle_directive w unset = some w
handle_directive w abort_run = some (cancel_run w)
handle_directive w synchronize = none

pub data Event : Type 0 where
  command : Command → Event
  directive : HeartbeatDirective → Event
  ends : ℕ → Event

-- One event of a session. A session that ends runs `stop_run`.
unfoldable pub step : Shared → Event → Shared
step w (command c) = (handle_command w c).0
step w (directive d) = elim (handle_directive w d) [ none ↦ stop_run w | some v ↦ v ]
step w (ends id) = task_ends w id

unfoldable pub run_events : Shared → List Event → Shared
run_events w [] = w
run_events w (e ∷ es) = run_events (step w e) es
