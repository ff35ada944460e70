-- ===== src/Distributed/Master/Barrier.antt =====
-- The barrier, src/distributed/master/barrier.rs. Each round of `wait_for_ready` locks the registry
-- and then reads the clock; what other tasks do to the registry in between shows as the registry
-- that the next round finds. The wait between two rounds, on the notifier or for 100 ms, is not
-- modelled: a run is the list of the rounds.
pub mod Outcomes
use strobengine.Prelude.{
  ℕ, zero, suc, ◌+◌, ◌-◌, ◌≤◌, ◌<◌, ◌≡◌, ◌≢◌, refl, ◌⊎◌, inl, inr, Bool, true, false, List, [], ◌∷◌,
  Option, some, arith, leb, ◌==◌, max, min, if◌then◌else◌, length, take, All, Bool-cases, sym, ◌∙◌,
  ap,
}
use strobengine.Prelude.Maps.{Eq, lookup, Absent}
use strobengine.Text.Utf8.{Bytes}
use strobengine.Text.Compare.{bytes_eq, same, same_iff}
use strobengine.Text.Sort.{sort, IsSorted, sort-IsSorted, IsSorted-take, length-sort, All-sort}
use strobengine.Distributed.Master.Registry.{
  WorkerRecord, Registry, is_allocatable, ids_where, allocatable_workers,
}
use strobengine.Distributed.Master.Registry.Invariant.{Inv}

-- One round: the registry that it locks and the time that it reads after.
pub record Round : Type 0 where
  pub registry : Registry
  pub now : ℕ

pub data Outcome : Type 0 where
  allocated : List Bytes → Outcome
  timed_out : ℕ → ℕ → Outcome
  waiting : Outcome

-- `expected.max(1)`
abbrev pub required : ℕ → ℕ
required expected = max expected 1

unfoldable pub wait_for_ready : ℕ → ℕ → List Round → Outcome
wait_for_ready expected deadline [] = waiting
wait_for_ready expected deadline (round ∷ rounds) =
    let ready = sort (allocatable_workers round.registry) in
    let rest = wait_for_ready expected deadline rounds in
    if leb (required expected) (length ready)
    then allocated (if expected == 0 then ready else take (required expected) ready)
    else if deadline - round.now == 0
    then timed_out (required expected) (length ready)
    else rest

abbrev pub Any : (Round → Type 0) → List Round → Type 0
Any P [] = ⊥
Any P (r ∷ rs) = P r ⊎ Any P rs

-- The worker is registered, ready and has a command stream.
abbrev pub IsAllocatable : Registry → Bytes → Type 0
IsAllocatable r id = (w : WorkerRecord) × (lookup id r ≡ some w) × (is_allocatable w ≡ true)

-- What the barrier promises of the workers that it hands out.
pub record Allocation (expected : ℕ) (r : Registry) (ids : List Bytes) : Type 0 where
  pub enough : required expected ≤ length (allocatable_workers r)
  pub first : ids ≡ take (length ids) (sort (allocatable_workers r))
  pub count : length ids ≡ (if expected == 0 then length (allocatable_workers r) else expected)
  pub sorted : IsSorted ids
  pub usable : All (IsAllocatable r) ids
