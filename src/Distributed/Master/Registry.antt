-- ===== src/Distributed/Master/Registry.antt =====
-- The cluster registry, src/distributed/master/registry.rs. Instants and durations are numbers of
-- nanoseconds on the monotonic clock, and the time that an operation reads is its argument. A
-- command channel is known by a number. The order in which a hash map lists its values is that of
-- its association list.
pub mod Invariant
pub mod Sweeping
pub mod Health
use strobengine.Prelude.{
  ℕ, ◌-◌, ◌≡◌, ◌↔◌, Bool, true, false, List, [], ◌∷◌, Option, none, some, arith, ltb, ◌==◌, ◌&&◌,
  if◌then◌else◌, is_empty, length,
}
use strobengine.Prelude.Maps.{Eq, lookup, insert, adjust}
use strobengine.Text.Utf8.{Bytes}
use strobengine.Text.Trim.{trim}
use strobengine.Text.Compare.{bytes_eq}

pub data WorkerStatus : Type 0 where
  registered ready running disconnected failed : WorkerStatus

-- `WorkerState` of the protocol, as `try_from` gives it; `wire_ready` is `Ready` and so on.
pub data WireState : Type 0 where
  wire_unspecified wire_ready wire_running wire_draining wire_error wire_unregistered : WireState

unfoldable pub from_wire : WireState → WorkerStatus
from_wire wire_ready = ready
from_wire wire_running = running
from_wire wire_draining = running
from_wire wire_error = failed
from_wire wire_unregistered = disconnected
from_wire wire_unspecified = registered

unfoldable pub is_ready : WorkerStatus → Bool
is_ready ready = true
is_ready _ = false

unfoldable pub is_running : WorkerStatus → Bool
is_running running = true
is_running _ = false

unfoldable pub is_disconnected : WorkerStatus → Bool
is_disconnected disconnected = true
is_disconnected _ = false

-- `capacity` is informational: the CPU share, a float, is kept as its bit pattern.
pub record ResourceCapacity : Type 0 where
  pub cpu_cores : ℕ
  pub total_memory_bytes : ℕ
  pub available_memory_bytes : ℕ
  pub available_cpu_percent : ℕ

pub record RegisterWorkerRequest : Type 0 where
  pub worker_id : Bytes
  pub hostname : Bytes
  pub ip_address : Bytes
  pub max_concurrency_vus : ℕ
  pub capacity : Option ResourceCapacity
  pub agent_version : Bytes
  pub labels : List (Bytes × Bytes)

pub record WorkerRecord : Type 0 where
  pub worker_id : Bytes
  pub hostname : Bytes
  pub ip_address : Bytes
  pub agent_version : Bytes
  pub max_vus : ℕ
  pub capacity : Option ResourceCapacity
  pub labels : List (Bytes × Bytes)
  pub status : WorkerStatus
  pub active_vus : ℕ
  pub test_run_id : Bytes
  pub last_heartbeat : ℕ
  pub command_tx : Option ℕ

abbrev pub Registry : Type 0
Registry = List (Bytes × WorkerRecord)

-- The reasons of `MasterError::Registry`.
pub data RegistryError : Type 0 where
  empty_worker_id zero_max_vus : RegistryError
  unknown_worker : Bytes → RegistryError

pub data Result : Type 0 where
  ok : Result
  err : RegistryError → Result

unfoldable pub new_record : RegisterWorkerRequest → ℕ → WorkerRecord
new_record request now = record {
  worker_id = request.worker_id;
  hostname = request.hostname;
  ip_address = request.ip_address;
  agent_version = request.agent_version;
  max_vus = request.max_concurrency_vus;
  capacity = request.capacity;
  labels = request.labels;
  status = registered;
  active_vus = 0;
  test_run_id = [];
  last_heartbeat = now;
  command_tx = none;
}

unfoldable pub register : Registry → RegisterWorkerRequest → ℕ → Registry × Result
register r request now =
    if is_empty (trim request.worker_id)
    then (r, err empty_worker_id)
    else if request.max_concurrency_vus == 0
    then (r, err zero_max_vus)
    else (insert request.worker_id (new_record request now) r, ok)

-- `get_mut` with an error for a missing worker.
unfoldable pub update_known : Registry → Bytes → (WorkerRecord → WorkerRecord) → Registry × Result
update_known r id change = elim (lookup id r) [
  | none ↦ (r, err (unknown_worker id))
  | some _ ↦ (adjust id change r, ok)
]

unfoldable pub record_heartbeat : Registry → Bytes → WireState → ℕ → Bytes → ℕ → Registry × Result
record_heartbeat r id state active_vus test_run_id now = update_known r id λ w. record w {
  status = from_wire state;
  active_vus = active_vus;
  test_run_id = test_run_id;
  last_heartbeat = now;
}

unfoldable pub attach_commands : Registry → Bytes → ℕ → Registry × Result
attach_commands r id tx = update_known r id λ w. record w { command_tx = some tx }

unfoldable pub detach_commands : Registry → Bytes → Registry
detach_commands r id = adjust id (λ w. record w { command_tx = none }) r

unfoldable pub set_status : Registry → Bytes → WorkerStatus → Registry
set_status r id status = adjust id (λ w. record w { status = status }) r

unfoldable pub command_sender : Registry → Bytes → Option ℕ
command_sender r id = elim (lookup id r) [ none ↦ none | some w ↦ w.command_tx ]

abbrev is_some : Option ℕ → Bool
is_some none = false
is_some (some _) = true

unfoldable pub is_allocatable : WorkerRecord → Bool
is_allocatable w = is_ready w.status && is_some w.command_tx

-- `values().filter(..).map(|w| w.worker_id.clone())`
unfoldable pub ids_where : (WorkerRecord → Bool) → Registry → List Bytes
ids_where test [] = []
ids_where test ((id, w) ∷ r) = if test w then w.worker_id ∷ ids_where test r else ids_where test r

unfoldable pub ready_workers : Registry → List Bytes
ready_workers = ids_where (λ w. is_ready w.status)

unfoldable pub allocatable_workers : Registry → List Bytes
allocatable_workers = ids_where is_allocatable

unfoldable pub running_workers : Registry → List Bytes
running_workers = ids_where (λ w. is_running w.status)

-- One record under `sweep`. `duration_since` stops at zero, as `-` does here.
unfoldable pub is_stale : ℕ → ℕ → WorkerRecord → Bool
is_stale now timeout w =
    if is_disconnected w.status then false else ltb timeout (now - w.last_heartbeat)

unfoldable pub evict : WorkerRecord → WorkerRecord
evict w = record w { status = disconnected; command_tx = none }

-- The swept registry, and the ids that were evicted.
unfoldable pub sweep : Registry → ℕ → ℕ → Registry × List Bytes
sweep [] now timeout = ([], [])
sweep ((id, w) ∷ r) now timeout =
    let (rest, evicted) = sweep r now timeout in
    if is_stale now timeout w
    then ((id, evict w) ∷ rest, w.worker_id ∷ evicted)
    else ((id, w) ∷ rest, evicted)

-- One mutation of the shared registry, with the time at which it is made.
pub data Op : Type 0 where
  registers : RegisterWorkerRequest → ℕ → Op
  beats : Bytes → WireState → ℕ → Bytes → ℕ → Op
  attaches : Bytes → ℕ → Op
  detaches : Bytes → Op
  sets : Bytes → WorkerStatus → Op
  sweeps : ℕ → ℕ → Op

unfoldable pub apply : Registry → Op → Registry
apply r (registers request now) = (register r request now).0
apply r (beats id state vus run now) = (record_heartbeat r id state vus run now).0
apply r (attaches id tx) = (attach_commands r id tx).0
apply r (detaches id) = detach_commands r id
apply r (sets id status) = set_status r id status
apply r (sweeps now timeout) = (sweep r now timeout).0

unfoldable pub apply_all : Registry → List Op → Registry
apply_all r [] = r
apply_all r (op ∷ ops) = apply_all (apply r op) ops
