-- ===== src/Sse/Session.antt =====
-- The iterations of the SSE engine, src/protocols/sse.rs. What the HTTP client answers, the drawn
-- fault and the instants are arguments, and so is `String::from_utf8_lossy`. Instants are
-- nanoseconds on the monotonic clock.
use strobengine.Prelude.{
  ℕ, ◌-◌, ◌/◌, ◌%◌, Bool, true, false, List, [], ◌∷◌, ◌++◌, Option, none, some, leb, ◌&&◌, ◌||◌,
  not, if◌then◌else◌, length,
}
use strobengine.Prelude.Words.{u64_mod, add64}
use strobengine.Text.Utf8.{Bytes}
use strobengine.Text.Compare.{eq_ignore_ascii_case}
use strobengine.Chaos.{ascii, ChaosFault, connection_drop}
use strobengine.Metrics.Samples.{is_some}
use strobengine.Metrics.Request.{RequestMetric, builder, status, bytes, socket_reused, sse_events}
use strobengine.Sse.{SseEvent, strip_prefix, parse_sse_chunk}

-- A body: the chunks that are read from it, `none` for a read that fails.
abbrev pub ByteStream : Type 0
ByteStream = List (Option Bytes)

pub record Response : Type 0 where
  pub status_code : ℕ
  pub body : ByteStream

pub record SseSession : Type 0 where
  pub stream : Option ByteStream
  pub status_code : ℕ
  pub events_received : ℕ
  pub first_event_time : Option ℕ
  pub last_event_time : Option ℕ
  pub buffer : Bytes
  pub max_events : Option ℕ

-- `SseSession::new`
unfoldable pub new : Option ℕ → SseSession
new max_events = record {
  stream = none;
  status_code = 0;
  events_received = 0;
  first_event_time = none;
  last_event_time = none;
  buffer = [];
  max_events = max_events;
}

unfoldable pub is_max_reached : SseSession → Bool
is_max_reached s = elim s.max_events [ none ↦ false | some max ↦ leb max s.events_received ]

abbrev has_header : Bytes → List (Bytes × Bytes) → Bool
has_header name [] = false
has_header name ((k, v) ∷ rest) = eq_ignore_ascii_case k name || has_header name rest

unfoldable pub default_header : Bytes → Bytes → List (Bytes × Bytes) → List (Bytes × Bytes)
default_header name value merged =
    if has_header name merged then merged else merged ++ (name, value) ∷ []

unfoldable pub build_headers : List (Bytes × Bytes) → List (Bytes × Bytes)
build_headers headers =
    default_header (ascii "cache-control") (ascii "no-cache")
      (default_header (ascii "accept") (ascii "text/event-stream") headers)

unfoldable pub normalize_url : Bytes → Bytes
normalize_url url = elim (strip_prefix (ascii "sse://") url) [
  | some rest ↦ ascii "http://" ++ rest
  | none ↦ elim (strip_prefix (ascii "sses://") url) [
    | some rest ↦ ascii "https://" ++ rest
    | none ↦ url
  ]
]

unfoldable pub is_dropped : Option ChaosFault → Bool
is_dropped (some connection_drop) = true
is_dropped _ = false

-- `RequestMetric::error`
unfoldable pub error : ℕ → Option ChaosFault → RequestMetric
error latency_micros fault = builder latency_micros fault

-- `(now - since).as_micros()`
abbrev pub micros : ℕ → ℕ → ℕ
micros now since = (now - since) / 1000

-- `value as u64`
abbrev pub as_u64 : ℕ → ℕ
as_u64 value = value % u64_mod

-- How the reading of a body stops: with the events of one chunk, the buffer and what is unread;
-- with a failed read; or at its end. The bytes read are counted.
pub data Reading : Type 0 where
  got : List SseEvent → Bytes → ℕ → ByteStream → Reading
  failed : Reading
  ended : ℕ → Reading

-- The instants of one iteration: its start, the start of the connecting and of the reading, the
-- arrival of an event, and the return.
pub record Times : Type 0 where
  pub iteration_start : ℕ
  pub connect_start : ℕ
  pub req_start : ℕ
  pub now : ℕ
  pub returned : ℕ

module _ (from_utf8_lossy : Bytes → Bytes) where
  unfoldable pub read_events : Bytes → ℕ → ByteStream → Reading
  read_events buffer total [] = ended total
  read_events buffer total (none ∷ rest) = failed
  read_events buffer total (some chunk ∷ rest) =
      let (events, left) = parse_sse_chunk buffer (from_utf8_lossy chunk) in
      let total = add64 total (length chunk) in
      elim events [ [] ↦ read_events left total rest | e ∷ es ↦ got (e ∷ es) left total rest ]

  abbrev stateless_metric : ℕ → Option ChaosFault → ℕ → Reading → RequestMetric
  stateless_metric latency fault status_code (got events left total rest) =
      sse_events (some (length events)) (some (as_u64 latency)) none
        (bytes total (status status_code (builder latency fault)))
  stateless_metric latency fault status_code failed = error latency fault
  stateless_metric latency fault status_code (ended total) =
      sse_events (some 0) none none (bytes total (status status_code (builder latency fault)))

  -- `execute_iteration`, which begins at `start` and returns at `now`.
  unfoldable pub execute_iteration : Option ChaosFault → Option Response → ℕ → ℕ → RequestMetric
  execute_iteration fault response start now =
      let latency = micros now start in
      if is_dropped fault then error latency fault else elim response [
        | none ↦ error latency fault
        | some r ↦
            if leb 400 r.status_code && leb r.status_code 599
            then sse_events (some 0) none none (status r.status_code (builder latency fault))
            else stateless_metric latency fault r.status_code (read_events [] 0 r.body)
      ]

  -- The lazy connect: the fault drawn, and the session unless the iteration ends here.
  unfoldable pub connect_session :
      SseSession → Option ChaosFault → Option Response → Option ChaosFault × Option SseSession
  connect_session s fault response = elim s.stream [
    | some body ↦ (none, some s)
    | none ↦ (
      fault,
      (if is_dropped fault then none else elim response [
        | none ↦ none
        | some r ↦ some (record s {
          stream = some r.body;
          status_code = r.status_code;
          events_received = 0;
          first_event_time = none;
        })
      ]),
    )
  ]

  abbrev events_metric :
      SseSession → Option ChaosFault → Bool → ℕ → Option ℕ → Option ℕ → ℕ → RequestMetric
  events_metric s fault was_connected latency first interval total =
      sse_events (some s.events_received) first interval
        (socket_reused was_connected (bytes total (status s.status_code (builder latency fault))))

  -- What follows the reading.
  unfoldable pub finish_read :
      SseSession → Option ChaosFault → Bool → Times → Reading → SseSession × RequestMetric
  finish_read s fault was_connected t (got events left total rest) =
      let first_of_connection = not (is_some s.first_event_time) in
      let s' = record s {
        stream = some rest;
        buffer = left;
        events_received = add64 s.events_received 1;
        first_event_time = if first_of_connection then some t.now else s.first_event_time;
        last_event_time = some t.now;
      } in
      (
        s',
        events_metric s' fault was_connected (micros t.returned t.req_start)
            (if first_of_connection then some (as_u64 (micros t.now t.iteration_start)) else none)
            (elim s.last_event_time [ none ↦ none | some last ↦ some (as_u64 (micros t.now last)) ])
            total,
      )
  finish_read s fault was_connected t failed =
      (record s { stream = none; buffer = [] }, error (micros t.returned t.req_start) fault)
  finish_read s fault was_connected t (ended total) = (
    record s { stream = none; buffer = [] },
    events_metric s fault was_connected (micros t.returned t.req_start) none none total,
  )

  abbrev pub body_of : SseSession → ByteStream
  body_of s = elim s.stream [ none ↦ [] | some body ↦ body ]

  -- `execute_iteration_with_context`, with the fault and the response in case it connects.
  unfoldable pub execute_iteration_with_context :
      SseSession → Option ChaosFault → Option Response → Times → SseSession × RequestMetric
  execute_iteration_with_context s fault response t =
      if is_max_reached s
      then (s, events_metric s none (is_some s.stream) 0 none none 0)
      else let (drawn, connected) = connect_session s fault response in
        elim connected [
          | none ↦ (s, error (micros t.returned t.connect_start) drawn)
          | some c ↦ finish_read c drawn (is_some s.stream) t (read_events c.buffer 0 (body_of c))
        ]
