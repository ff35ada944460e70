-- ===== src/Distributed/Worker/Leak.antt =====
-- How runs of src/distributed/worker.rs begin and end: what STOP ends, how long the slot stays
-- taken, and a START that is rejected.
use strobengine.Prelude.{
  ℕ, ◌<◌, ◌≡◌, ◌≢◌, refl, ap, subst, ◌∙◌, inl, inr, Bool, true, false, not, List, [], ◌∷◌, none,
  some, ◌==◌, if◌then◌else◌, arith, All, Option-cases,
}
use strobengine.Distributed.State.{ready, transition}
use strobengine.Distributed.Worker.{
  Task, Shared, set_state, cancel, remove, is_live, task_ends, begin_run, cancel_run, stop_run,
  start_run, acknowledged, rejected, start, start_missing, start_refused, stop, abort, unspecified,
  handle_command, proceed, synchronize, abort_run, unset, handle_directive, Event, command,
  directive, ends, step, run_events,
}
use strobengine.Distributed.Worker.Invariant.{Inv, SlotBelow}

is_live-remove : (id : ℕ) (ts : List Task) → is_live id (remove id ts) ≡ false
unfolding is_live remove
is_live-remove id [] = refl
is_live-remove id (t ∷ ts) = ground (arith, is_live-remove id ts)

-- After STOP the slot is empty, no user is active, the worker is ready, and the run that held the
-- slot is no longer live.
pub stop_ends_run :
    (w : Shared)
    → Inv w
    → let s = (handle_command w stop).0 in
      (s.run ≡ none)
      × (s.active_vus ≡ 0)
      × (s.state ≡ ready)
      × ((id : ℕ) → w.run ≡ some id → is_live id s.tasks ≡ false)
unfolding handle_command set_state transition stop_run task_ends
stop_ends_run w v = elim (Option-cases w.run) [
  | inl e ↦ rw (e, stop_run) (e, refl, ground arith, λ id h. cc)
  | inr (j, e) ↦
      rw (e, stop_run)
        (
          ground arith,
          refl,
          ground arith,
          λ id h. ground (arith, is_live-remove j (cancel j w.tasks)),
        )
]

-- Events that do not empty the slot: all but STOP and the directive to synchronize.
abbrev pub KeepsSlot : Event → Type 0
KeepsSlot e = (e ≢ command stop) × (e ≢ directive synchronize)

step-run :
    (w : Shared) (e : Event) (id : ℕ) → KeepsSlot e → w.run ≡ some id → (step w e).run ≡ some id
unfolding step handle_command handle_directive start_run begin_run cancel_run task_ends set_state
step-run w e id k h = ground arith

run_events-run :
    (w : Shared) (es : List Event) (id : ℕ)
    → All KeepsSlot es
    → w.run ≡ some id
    → (run_events w es).run ≡ some id
unfolding run_events
run_events-run w [] id k h = h
run_events-run w (e ∷ es) id k h = run_events-run (step w e) es id k.1 (step-run w e id k.0 h)

-- A START on a taken slot is rejected.
start_run-taken : (w : Shared) (vus id : ℕ) → w.run ≡ some id → (start_run w vus).1 ≡ rejected
unfolding start_run begin_run
start_run-taken w vus id h = ground arith

start_run-accepted :
    (w : Shared) (vus : ℕ)
    → (start_run w vus).1 ≡ acknowledged
    → (start_run w vus).0.run ≡ some w.next_id
unfolding start_run begin_run set_state
start_run-accepted w vus a = ground arith

-- An accepted START leaves its mark: until STOP, or a synchronize directive, every later START is
-- rejected, also when the run has ended or was aborted long before.
pub start_after_run_rejected :
    (w : Shared) (vus later : ℕ) (es : List Event)
    → (handle_command w (start vus)).1 ≡ acknowledged
    → All KeepsSlot es
    → (handle_command (run_events (handle_command w (start vus)).0 es) (start later)).1 ≡ rejected
unfolding handle_command
start_after_run_rejected w vus later es a k =
    start_run-taken (run_events (start_run w vus).0 es) later w.next_id
      (run_events-run (start_run w vus).0 es w.next_id k (start_run-accepted w vus a))

-- The task `id` is live and its token is not cancelled.
unfoldable pub runs_on : ℕ → List Task → Bool
runs_on id [] = false
runs_on id (t ∷ ts) = if t.id == id then not t.cancelled else runs_on id ts

runs_on-cancel : (id j : ℕ) (ts : List Task) → j ≢ id → runs_on id (cancel j ts) ≡ runs_on id ts
unfolding runs_on cancel
runs_on-cancel id j [] h = refl
runs_on-cancel id j (t ∷ ts) h = ground (arith, runs_on-cancel id j ts h)

runs_on-remove : (id j : ℕ) (ts : List Task) → j ≢ id → runs_on id (remove j ts) ≡ runs_on id ts
unfolding runs_on remove
runs_on-remove id j [] h = refl
runs_on-remove id j (t ∷ ts) h = ground (arith, runs_on-remove id j ts h)

-- A task that runs on outside the slot.
record Leaked (id : ℕ) (w : Shared) : Type 0 where
  used : id < w.next_id
  not_held : w.run ≢ some id
  runs : runs_on id w.tasks ≡ true

task_ends-Leaked : (id j : ℕ) (w : Shared) → j ≢ id → Leaked id w → Leaked id (task_ends w j)
unfolding task_ends set_state
task_ends-Leaked id j w h l = ground (arith, runs_on-remove id j w.tasks h)

cancel_run-Leaked : (id : ℕ) (w : Shared) → Leaked id w → Leaked id (cancel_run w)
unfolding cancel_run
cancel_run-Leaked id w l = elim (Option-cases w.run) [
  | inl e ↦ rw (e, cancel_run) l
  | inr (j, e) ↦
      let ne : j ≢ id = λ q. l.not_held (e ∙ ap some q) in
      rw (e, cancel_run)
        (record {
          used = l.used;
          not_held = l.not_held;
          runs = runs_on-cancel id j w.tasks ne ∙ l.runs;
        })
]

stop_run-Leaked : (id : ℕ) (w : Shared) → Leaked id w → Leaked id (stop_run w)
unfolding stop_run
stop_run-Leaked id w l = elim (Option-cases w.run) [
  | inl e ↦ rw (e, stop_run) (record { used = l.used; not_held = l.not_held; runs = l.runs })
  | inr (j, e) ↦
      let ne : j ≢ id = λ q. l.not_held (e ∙ ap some q) in
      let u =
        task_ends-Leaked id j (record w { run = none; tasks = cancel j w.tasks }) ne
          (record {
            used = l.used;
            not_held = λ q. cc;
            runs = runs_on-cancel id j w.tasks ne ∙ l.runs;
          }) in
      rw (e, stop_run) (record { used = u.used; not_held = u.not_held; runs = u.runs })
]

start_run-Leaked : (id vus : ℕ) (w : Shared) → Leaked id w → Leaked id (start_run w vus).0
unfolding start_run begin_run set_state runs_on
start_run-Leaked id vus w l = ground arith

step-Leaked : (id : ℕ) (w : Shared) (e : Event) → e ≢ ends id → Leaked id w → Leaked id (step w e)
unfolding step handle_command handle_directive set_state
step-Leaked id w (command start_missing) h l = l
step-Leaked id w (command start_refused) h l = l
step-Leaked id w (command (start vus)) h l = start_run-Leaked id vus w l
step-Leaked id w (command stop) h l =
    let u = stop_run-Leaked id w l in record { used = u.used; not_held = u.not_held; runs = u.runs }
step-Leaked id w (command abort) h l =
    let u = cancel_run-Leaked id w l in
    record { used = u.used; not_held = u.not_held; runs = u.runs }
step-Leaked id w (command unspecified) h l = l
step-Leaked id w (directive proceed) h l = l
step-Leaked id w (directive unset) h l = l
step-Leaked id w (directive abort_run) h l = cancel_run-Leaked id w l
step-Leaked id w (directive synchronize) h l = stop_run-Leaked id w l
step-Leaked id w (ends j) h l = task_ends-Leaked id j w (λ q. h (ap ends q)) l

run_events-Leaked :
    (id : ℕ) (w : Shared) (es : List Event)
    → All (λ e. e ≢ ends id) es
    → Leaked id w
    → Leaked id (run_events w es)
unfolding run_events
run_events-Leaked id w [] h l = l
run_events-Leaked id w (e ∷ es) h l =
    run_events-Leaked id (step w e) es h.1 (step-Leaked id w e h.0 l)

taken-Leaked :
    (w : Shared) (vus j : ℕ) → Inv w → w.run ≡ some j → Leaked w.next_id (start_run w vus).0
unfolding start_run begin_run runs_on
taken-Leaked w vus j v e =
    let lt : j < w.next_id = subst (SlotBelow w.next_id) e v.run_below in
    rw (e, start_run)
      (record { used = omega arith; not_held = λ q. ground arith; runs = ground arith })

-- A START on a taken slot is rejected and yet leaves a run behind: until that run ends of its own
-- accord, no event cancels it, neither STOP nor ABORT.
pub rejected_start_runs_on :
    (w : Shared) (vus j : ℕ) (es : List Event)
    → Inv w
    → w.run ≡ some j
    → All (λ e. e ≢ ends w.next_id) es
    → ((handle_command w (start vus)).1 ≡ rejected)
      × (runs_on w.next_id (run_events (handle_command w (start vus)).0 es).tasks ≡ true)
unfolding handle_command
rejected_start_runs_on w vus j es v e h = (
  start_run-taken w vus j e,
  (run_events-Leaked w.next_id (start_run w vus).0 es h (taken-Leaked w vus j v e)).runs,
)
