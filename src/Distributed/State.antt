-- ===== src/Distributed/State.antt =====
-- The worker lifecycle of src/distributed/state.rs.
use strobengine.Prelude.{◌≡◌, ◌≢◌, ◌⊎◌, Bool, true, false, ◌||◌, arith, if◌then◌else◌}

pub data WorkerState : Type 0 where
  ready running draining error : WorkerState

unfoldable pub same_state : WorkerState → WorkerState → Bool
same_state ready ready = true
same_state running running = true
same_state draining draining = true
same_state error error = true
same_state _ _ = false

unfoldable pub can_transition_to : WorkerState → WorkerState → Bool
can_transition_to ready running = true
can_transition_to ready draining = true
can_transition_to ready error = true
can_transition_to running draining = true
can_transition_to running ready = true
can_transition_to running error = true
can_transition_to draining ready = true
can_transition_to draining error = true
can_transition_to error ready = true
can_transition_to error draining = true
can_transition_to _ _ = false

-- `WorkerError::StateTransition` names the two states.
pub data Transition : Type 0 where
  moved : Transition
  illegal : WorkerState → WorkerState → Transition

-- `transition`: the new state of the machine and the result.
unfoldable pub transition : WorkerState → WorkerState → WorkerState × Transition
unfolding same_state can_transition_to
transition state next =
    if same_state next state || can_transition_to state next
    then (next, moved)
    else (state, illegal state next)

abbrev pub TransitionOutcome : WorkerState → WorkerState → Type 0
TransitionOutcome s n =
    (((n ≢ running) ⊎ ((s ≡ ready) ⊎ (s ≡ running))) × (transition s n ≡ (n, moved)))
    ⊎ ((n ≡ running) × ((s ≡ draining) ⊎ (s ≡ error)) × (transition s n ≡ (s, illegal s n)))

-- Every transition is made but those into `Running` from `Draining` or `Error`; these leave the
-- state and report the two states.
pub transition_outcome : (s n : WorkerState) → TransitionOutcome s n
unfolding transition
transition_outcome s n = ground arith
