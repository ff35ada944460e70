-- ===== src/Distributed/Master/Run.antt =====
-- The active run of src/distributed/master/run.rs: the slot of `MasterState` and the handlers and
-- phases that lock it. The pipeline's task is behind an unbounded channel and takes the batches in
-- the order of their sending, so a batch is ingested where it is sent. The field `pipeline` is none once that task has panicked. A set of ids is a list
-- without repetition. `is_open` tells whether a command channel still has its receiver.
pub mod Ownership
mod Tests
use strobengine.Prelude.{
  ℕ, Bool, true, false, List, [], ◌∷◌, ◌++◌, Option, none, some, leb, ◌||◌, if◌then◌else◌, is_empty,
  length,
}
use strobengine.Prelude.Floats.{Floats}
use strobengine.Text.Utf8.{Bytes}
use strobengine.Text.Trim.{trim}
use strobengine.Text.Compare.{same}
use strobengine.Distributed.Master.Registry.{Registry, command_sender}
use strobengine.Distributed.Master.Metrics.{MetricBatch}
use strobengine.Distributed.Master.Pipeline.{TelemetryPipeline, new, ingest}
use strobengine.Distributed.Master.Pipeline.Report.{GlobalReport, finalize, digits}

unfoldable pub contains : Bytes → List Bytes → Bool
contains id [] = false
contains id (j ∷ ids) = same j id || contains id ids

-- `insert` of a set
unfoldable pub insert_member : Bytes → List Bytes → List Bytes
insert_member id ids = if contains id ids then ids else id ∷ ids

-- The run id that was asked for, or `run-` and the time in milliseconds.
unfoldable pub resolve_run_id : Bytes → ℕ → Bytes
resolve_run_id asked now_unix_ms =
    if is_empty (trim asked) then b'r' ∷ b'u' ∷ b'n' ∷ b'-' ∷ digits 20 now_unix_ms else asked

-- `format!("cmd-{run_id}-start")`
unfoldable pub start_command : Bytes → Bytes
start_command run_id =
    b'c' ∷ b'm' ∷ b'd' ∷ b'-' ∷ run_id ++ b'-' ∷ b's' ∷ b't' ∷ b'a' ∷ b'r' ∷ b't' ∷ []

pub data RunError : Type 0 where
  no_workers already_active not_delivered disappeared pipeline_stopped : RunError

-- The channels that a command reaches, each worker with the registry that its turn finds.
unfoldable pub deliver : (ℕ → Bool) → List (Bytes × Registry) → List ℕ
deliver is_open [] = []
deliver is_open ((id, r) ∷ turns) =
    let rest = deliver is_open turns in
    elim (command_sender r id) [ none ↦ rest | some tx ↦ if is_open tx then tx ∷ rest else rest ]

module _ (R : Floats) where
  pub record ActiveRun : Type 0 where
    pub run_id : Bytes
    pub start_command_id : Bytes
    pub allocated : List Bytes
    pub pipeline : Option (TelemetryPipeline R)
    pub acked : List Bytes
    pub telemetry_done : List Bytes

  abbrev pub Slot : Type 0
  Slot = Option ActiveRun

  -- What is left of the pipeline by a batch: nothing once its task has panicked.
  abbrev pub ingest_alive :
      Option (TelemetryPipeline R) → MetricBatch → Option (TelemetryPipeline R)
  ingest_alive none b = none
  ingest_alive (some p) b = elim (ingest R p b) [ none ↦ none | some (q, published) ↦ some q ]

  -- `ingest_batch`
  unfoldable pub ingest_batch : Slot → MetricBatch → Slot
  ingest_batch none b = none
  ingest_batch (some run) b =
      if same b.test_run_id run.run_id
      then some (record run { pipeline = ingest_alive run.pipeline b })
      else some run

  -- `record_ack`, of the acknowledgement of a command by a worker.
  unfoldable pub record_ack : Slot → Bytes → Bytes → Slot
  record_ack none command_id worker_id = none
  record_ack (some run) command_id worker_id =
      if same command_id run.start_command_id
      then some (record run { acked = insert_member worker_id run.acked })
      else some run

  unfoldable pub mark_telemetry_done : Slot → Bytes → Slot
  mark_telemetry_done none worker_id = none
  mark_telemetry_done (some run) worker_id =
      if is_empty worker_id
      then some run
      else some (record run { telemetry_done = insert_member worker_id run.telemetry_done })

  -- Phase 2 of `start_run`: the active run is installed, for the workers of the barrier.
  unfoldable pub install : Slot → Bytes → List Bytes → ℕ → ℕ → Slot × Option RunError
  install s run_id [] bucket_count window_secs = (s, some no_workers)
  install (some run) run_id allocated bucket_count window_secs = (some run, some already_active)
  install none run_id allocated bucket_count window_secs = (
    some (record {
      run_id = run_id;
      start_command_id = start_command run_id;
      allocated = allocated;
      pipeline = some (new R run_id bucket_count window_secs);
      acked = [];
      telemetry_done = [];
    }),
    none,
  )

  -- Phase 3: a START that reached no channel takes the run away.
  unfoldable pub after_broadcast : Slot → List ℕ → Slot × Option RunError
  after_broadcast s reached = if is_empty reached then (none, some not_delivered) else (s, none)

  -- Phase 4 ends when the slot is found so, or at the deadline.
  unfoldable pub is_complete : Slot → Bool
  is_complete none = true
  is_complete (some run) = leb (length run.allocated) (length run.telemetry_done)

  pub data Finished : Type 0 where
    done : GlobalReport R → Finished
    failed : RunError → Finished

  -- Phase 5: the run is taken out of the slot and its pipeline asked for the report, which one whose
  -- task has stopped does not give.
  unfoldable pub finish : (ℕ → Option Bytes) → Slot → Slot × Finished
  finish class_name none = (none, failed disappeared)
  finish class_name (some run) = (
    none,
    elim run.pipeline [ none ↦ failed pipeline_stopped | some p ↦ done (finalize R class_name p) ],
  )

  -- `abort` takes the run; the channels of its workers get an ABORT.
  unfoldable pub abort : Slot → Slot
  abort s = none

  -- What the services do to the slot while a run waits.
  pub data Event : Type 0 where
    batch : MetricBatch → Event
    ack : Bytes → Bytes → Event
    closed : Bytes → Event

  unfoldable pub handle : Slot → Event → Slot
  handle s (batch b) = ingest_batch s b
  handle s (ack command_id worker_id) = record_ack s command_id worker_id
  handle s (closed worker_id) = mark_telemetry_done s worker_id

  unfoldable pub handle_all : Slot → List Event → Slot
  handle_all s [] = s
  handle_all s (e ∷ es) = handle_all (handle s e) es
