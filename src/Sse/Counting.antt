-- ===== src/Sse/Counting.antt =====
-- What the persistent SSE sessions of src/protocols/sse.rs count, and what the aggregation of
-- src/metrics/aggregate.rs makes of it.
use strobengine.Prelude.{
  ℕ, ◌≤◌, ◌<◌, ◌≡◌, refl, inl, inr, Bool, false, List, [], ◌∷◌, Option, none, some, arith,
  Bool-cases, Option-cases,
}
use strobengine.Prelude.Words.{u64_mod}
use strobengine.Text.Utf8.{Bytes}
use strobengine.Chaos.{ChaosFault}
use strobengine.Metrics.Samples.{is_some}
use strobengine.Metrics.Request.{RequestMetric}
use strobengine.Sse.Session.{
  SseSession, Response, Times, Reading, got, new, is_max_reached, read_events, connect_session,
  is_dropped, error, micros, body_of, finish_read, execute_iteration_with_context,
}

module _ (from_utf8_lossy : Bytes → Bytes) where
  -- What one iteration may meet: a drawn fault, a response, and its instants.
  abbrev pub Meeting : Type 0
  Meeting = Option ChaosFault × Option Response × Times

  unfoldable pub iterate : SseSession → List Meeting → SseSession × List RequestMetric
  iterate s [] = (s, [])
  iterate s ((fault, response, t) ∷ ms) =
      let (next, metric) = execute_iteration_with_context from_utf8_lossy s fault response t in
      let (last, metrics) = iterate next ms in (last, metric ∷ metrics)

  abbrev IsCapped : ℕ → SseSession → Type 0
  IsCapped max s = (s.max_events ≡ some max) × (s.events_received ≤ max)

  finish_read-IsCapped :
      (max : ℕ) (c : SseSession) (fault : Option ChaosFault) (was : Bool) (t : Times) (r : Reading)
      → max < u64_mod
      → c.max_events ≡ some max
      → c.events_received < max
      → IsCapped max (finish_read from_utf8_lossy c fault was t r).0
  unfolding finish_read
  finish_read-IsCapped max c fault was t (got es left total rest) b m h = (m, omega (arith, h))
  finish_read-IsCapped max c fault was t _ b m h = (m, omega (arith, h))

  -- A session that may read on.
  abbrev IsOpen : ℕ → Option SseSession → Type 0
  IsOpen max none = Unit
  IsOpen max (some c) = (c.max_events ≡ some max) × (c.events_received < max)

  connect_session-IsCapped :
      (max : ℕ) (s : SseSession) (fault : Option ChaosFault) (response : Option Response)
      → s.max_events ≡ some max
      → s.events_received < max
      → IsOpen max (connect_session from_utf8_lossy s fault response).1
  unfolding connect_session
  connect_session-IsCapped max s fault response m h = elim (Option-cases s.stream) [
    | inr (body, e) ↦ rw (e, connect_session) (m, h)
    | inl e ↦ elim (Bool-cases (is_dropped fault)) [
      | inl d ↦ rw (e, d, connect_session) tt
      | inr d ↦ rw (e, d, connect_session) (opened response)
    ]
  ]
    where
      opened :
          (r : Option Response)
          → IsOpen max (elim r [
            | none ↦ none
            | some r ↦ some (record s {
              stream = some r.body;
              status_code = r.status_code;
              events_received = 0;
              first_event_time = none;
            })
          ])
      opened none = tt
      opened (some r) = (m, omega (arith, h))

  below_max :
      (max : ℕ) (s : SseSession)
      → s.max_events ≡ some max
      → is_max_reached s ≡ false
      → s.events_received < max
  unfolding is_max_reached
  below_max max s m h = ground (arith, m, h)

  -- The rest of an iteration that has a session to read from, or none.
  abbrev read_on :
      SseSession → Option ChaosFault → Times → Option SseSession → SseSession × RequestMetric
  read_on s drawn t connected = elim connected [
    | none ↦ (s, error (micros t.returned t.connect_start) drawn)
    | some c ↦
        finish_read from_utf8_lossy c drawn (is_some s.stream) t
          (read_events from_utf8_lossy c.buffer 0 (body_of from_utf8_lossy c))
  ]

  read_on-IsCapped :
      (max : ℕ) (s : SseSession) (drawn : Option ChaosFault) (t : Times) (o : Option SseSession)
      → max < u64_mod
      → IsCapped max s
      → IsOpen max o
      → IsCapped max (read_on s drawn t o).0
  read_on-IsCapped max s drawn t none b h o = h
  read_on-IsCapped max s drawn t (some c) b h o = finish_read-IsCapped max c drawn _ t _ b o.0 o.1

  execute-IsCapped :
      (max : ℕ) (s : SseSession) (fault : Option ChaosFault) (response : Option Response)
      (t : Times)
      → max < u64_mod
      → IsCapped max s
      → IsCapped max (execute_iteration_with_context from_utf8_lossy s fault response t).0
  unfolding execute_iteration_with_context
  execute-IsCapped max s fault response t b h = elim (Bool-cases (is_max_reached s)) [
    | inl reached ↦ rw (reached, execute_iteration_with_context) h
    | inr below ↦
        rw (below, execute_iteration_with_context)
          (read_on-IsCapped max s _ t (connect_session from_utf8_lossy s fault response).1 b h
            (connect_session-IsCapped max s fault response h.0 (below_max max s h.0 below)))
  ]

  iterate-IsCapped :
      (max : ℕ) (s : SseSession) (ms : List Meeting)
      → max < u64_mod
      → IsCapped max s
      → IsCapped max (iterate s ms).0
  unfolding iterate
  iterate-IsCapped max s [] b h = h
  iterate-IsCapped max s ((fault, response, t) ∷ ms) b h =
      iterate-IsCapped max (execute_iteration_with_context from_utf8_lossy s fault response t).0 ms
        b (execute-IsCapped max s fault response t b h)

  -- With a cap below 2 ^ 64, no sequence of iterations takes the counter of a new session past it.
  pub events_capped :
      (max : ℕ) (ms : List Meeting)
      → max < u64_mod
      → (iterate (new (some max)) ms).0.events_received ≤ max
  unfolding new
  events_capped max ms b = (iterate-IsCapped max (new (some max)) ms b (refl, omega arith)).1
