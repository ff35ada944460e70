-- ===== src/Load/Supervisor.antt =====
-- The supervisor of a profile load test, `execute_test` of src/lib.rs. A worker is the number with
-- which it is spawned; the vectors of tokens and handles have their ends first.
use strobengine.Prelude.{
  ℕ, zero, suc, ◌+◌, ◌-◌, Bool, List, [], ◌∷◌, Option, none, some, ltb, leb, ◌||◌, if◌then◌else◌,
}
use strobengine.Prelude.Floats.{Floats}
use strobengine.Config.{LoadProfile, total_duration, target_concurrency}

-- `spawned` counts the workers that are started, and `cancelled` has those whose token is.
pub record Supervisor : Type 0 where
  pub child_tokens : List ℕ
  pub handles : List ℕ
  pub current_concurrency : ℕ
  pub spawned : ℕ
  pub cancelled : List ℕ
  pub reaped_handles : List ℕ

unfoldable pub new_supervisor : Supervisor
new_supervisor = record {
  child_tokens = [];
  handles = [];
  current_concurrency = 0;
  spawned = 0;
  cancelled = [];
  reaped_handles = [];
}

-- One round of the loop that scales up.
unfoldable pub spawn_child : Supervisor → Supervisor
spawn_child s = record s {
  child_tokens = s.spawned ∷ s.child_tokens;
  handles = s.spawned ∷ s.handles;
  current_concurrency = s.current_concurrency + 1;
  spawned = s.spawned + 1;
}

-- `while current_concurrency < target`
unfoldable pub scale_up : ℕ → ℕ → Supervisor → Supervisor
scale_up zero target s = s
scale_up (suc fuel) target s =
    if ltb s.current_concurrency target then scale_up fuel target (spawn_child s) else s

-- The last token and the last handle, which is pushed on the reaped ones.
abbrev pub pop_child : List ℕ → List ℕ → Supervisor → Supervisor
pop_child [] hs s = s
pop_child (t ∷ ts) [] s = record s {
  child_tokens = ts;
  cancelled = t ∷ s.cancelled;
  current_concurrency = s.current_concurrency - 1;
}
pop_child (t ∷ ts) (h ∷ hs) s = record s {
  child_tokens = ts;
  cancelled = t ∷ s.cancelled;
  handles = hs;
  reaped_handles = h ∷ s.reaped_handles;
  current_concurrency = s.current_concurrency - 1;
}

-- One round of the loop that scales down; without a token it changes nothing.
unfoldable pub cancel_child : Supervisor → Supervisor
cancel_child s = pop_child s.child_tokens s.handles s

-- `while current_concurrency > target`, or none if it turns for ever.
unfoldable pub scale_down : ℕ → ℕ → Supervisor → Option Supervisor
scale_down zero target s = if ltb target s.current_concurrency then none else some s
scale_down (suc fuel) target s =
    if ltb target s.current_concurrency then scale_down fuel target (cancel_child s) else some s

-- One tick, whose loops each turn at most so often; then the reaped workers are awaited.
unfoldable pub tick : ℕ → Supervisor → Option Supervisor
tick target s =
    let wide = scale_up target target s in
    elim (scale_down wide.current_concurrency target wide) [
      | none ↦ none
      | some narrow ↦ some (record narrow { reaped_handles = [] })
    ]

-- What a tick reads: the seconds since the start, and whether the run is cancelled.
pub record Reading : Type 0 where
  pub elapsed_secs : ℕ
  pub is_cancelled : Bool

module _ (R : Floats) (profile : LoadProfile) where
  -- The loop, with the supervisor after it.
  unfoldable pub supervise : List Reading → Supervisor → Option Supervisor
  supervise [] s = some s
  supervise (r ∷ readings) s =
      if leb (total_duration profile) r.elapsed_secs || r.is_cancelled
      then some s
      else elim (tick (target_concurrency R profile r.elapsed_secs) s) [
        | none ↦ none
        | some t ↦ supervise readings t
      ]

unfoldable pub cancel_all : List ℕ → List ℕ → List ℕ
cancel_all [] cancelled = cancelled
cancel_all (t ∷ tokens) cancelled = cancel_all tokens (t ∷ cancelled)

-- The workers that are left are cancelled and awaited.
unfoldable pub teardown : Supervisor → Supervisor
teardown s = record s { cancelled = cancel_all s.child_tokens s.cancelled; handles = [] }
