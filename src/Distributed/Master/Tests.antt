-- ===== src/Distributed/Master/Tests.antt =====
-- Runs of the registry and the barrier of src/distributed/master.
use strobengine.Prelude.{
  ◌≤◌, ◌<◌, length, arith, ◌≡◌, ◌≢◌, refl, inl, inr, List, [], ◌∷◌, none, some, All,
}
use strobengine.Prelude.Maps.{lookup}
use strobengine.Text.Utf8.{Bytes}
use strobengine.Text.Compare.{bytes_eq, same, le_text}
use strobengine.Text.Sort.{sort}
use strobengine.Distributed.Master.Registry.{
  RegisterWorkerRequest, Registry, WorkerRecord, Op, registers, beats, attaches, sweeps, wire_ready,
  apply, apply_all, allocatable_workers, sweep, ready, disconnected, is_stale, is_disconnected,
  ids_where, is_allocatable, is_ready,
}
use strobengine.Distributed.Master.Registry.Invariant.{Inv}
use strobengine.Distributed.Master.Registry.Sweeping.{IsAmong, sweep_exact}
use strobengine.Distributed.Master.Registry.Health.{evicted-not_allocatable}
use strobengine.Distributed.Master.Barrier.{
  Round, waiting, required, wait_for_ready, Any, Allocation,
}
use strobengine.Distributed.Master.Barrier.Outcomes.{
  wait_for_ready-Allocation, wait_for_ready-timed_out, wait_for_ready-ne-waiting,
}

abbrev request : Bytes → RegisterWorkerRequest
request id = record {
  worker_id = id;
  hostname = 104 ∷ [];
  ip_address = [];
  max_concurrency_vus = 50;
  capacity = none;
  agent_version = [];
  labels = [];
}

abbrev west : Bytes
west = 119 ∷ 49 ∷ []

abbrev east : Bytes
east = 119 ∷ []

-- A worker registers, opens its stream and becomes ready.
abbrev joins : Bytes → List Op
joins id = registers (request id) 5 ∷ attaches id 7 ∷ beats id wire_ready 0 [] 9 ∷ []

empty-Inv : Inv []
empty-Inv = record { distinct = tt; own_key = tt }

abbrev joined : WorkerRecord
joined = record {
  worker_id = west;
  hostname = 104 ∷ [];
  ip_address = [];
  agent_version = [];
  max_vus = 50;
  capacity = none;
  labels = [];
  status = ready;
  active_vus = 0;
  test_run_id = [];
  last_heartbeat = 9;
  command_tx = some 7;
}

abbrev cluster : Registry
cluster = (east, record joined { worker_id = east; last_heartbeat = 30 }) ∷ (west, joined) ∷ []

cluster-Inv : Inv cluster
cluster-Inv = record { distinct = (((λ e. cc), tt), (tt, tt)); own_key = (refl, (refl, tt)) }

-- At 40 one of the two workers is silent for longer than 20.
sweep_exact_example :
    (lookup west (sweep cluster 40 20).0
      ≡ some (record joined { status = disconnected; command_tx = none }))
    × IsAmong west (sweep cluster 40 20).1
unfolding lookup same
sweep_exact_example = (sweep_exact cluster west 40 20 cluster-Inv refl).0 ((λ e. cc), omega arith)

evicted-not_allocatable_example :
    All
      (λ j. j ≢ west)
      (allocatable_workers
        (apply_all (apply cluster (sweeps 40 20)) (beats west wire_ready 0 [] 41 ∷ [])))
unfolding lookup same is_stale is_disconnected
evicted-not_allocatable_example =
    evicted-not_allocatable cluster west (beats west wire_ready 0 [] 41 ∷ []) 40 20 cluster-Inv refl
      refl ((λ tx e. cc), tt)

abbrev rounds : List Round
rounds = record { registry = []; now = 10 } ∷ record { registry = cluster; now = 20 } ∷ []

wait_for_ready-Allocation_example : Any (λ t. Allocation 1 t.registry (east ∷ [])) rounds
unfolding wait_for_ready sort allocatable_workers ids_where is_allocatable is_ready le_text
wait_for_ready-Allocation_example =
    wait_for_ready-Allocation 1 100 rounds (east ∷ []) (empty-Inv, (cluster-Inv, tt)) refl

wait_for_ready-timed_out_example :
    (3 ≡ required 3)
    × Any (λ t. (15 ≤ t.now) × (2 ≡ length (allocatable_workers t.registry)) × (2 < 3)) rounds
unfolding wait_for_ready sort allocatable_workers ids_where is_allocatable is_ready le_text
wait_for_ready-timed_out_example = wait_for_ready-timed_out 3 15 rounds 3 2 refl

wait_for_ready-ne-waiting_example : wait_for_ready 3 15 rounds ≢ waiting
wait_for_ready-ne-waiting_example =
    wait_for_ready-ne-waiting 3 15 rounds (inr (inl (inl (omega arith))))
