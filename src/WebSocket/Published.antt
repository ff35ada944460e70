-- ===== src/WebSocket/Published.antt =====
-- What the publisher sessions of src/protocols/websocket.rs report as backpressure, and how many
-- messages a persistent session sends on one connection.
use strobengine.Prelude.{
  ℕ, ◌+◌, ◌<◌, ◌≤◌, ◌≡◌, refl, inl, inr, Bool, true, false, ◌&&◌, if◌then◌else◌, List, [], ◌∷◌,
  Option, none, some, arith, length, All, Bool-cases,
}
use strobengine.Prelude.Words.{u64_mod}
use strobengine.Text.Utf8.{Bytes}
use strobengine.Metrics.Samples.{ws, ProtocolSample}
use strobengine.Metrics.Samples
use strobengine.Metrics.Request.{
  RequestMetric, builder, status, bytes, socket_reused, timestamp_sent_ns, with_sample,
}
use strobengine.WebSocket.{
  CountingSink, new, in_flight, start_send, poll_flush, message_payload_len, is_dropped,
}
use strobengine.WebSocket.Publisher.{
  PublisherSession, Publishing, connected_sink, published_payload, feed_sink, published_metric,
  send_payload, execute_publisher_iteration,
}

-- The publisher session of `create_worker_context`.
abbrev pub new_publisher : Bytes → PublisherSession
new_publisher user_payload = record { write = none; user_payload = user_payload }

unfoldable pub publish_all : ℕ → PublisherSession → List Publishing → List RequestMetric
publish_all warn_bytes s [] = []
publish_all warn_bytes s (p ∷ ps) =
    let (next, metric) = execute_publisher_iteration warn_bytes s p in
    metric ∷ publish_all warn_bytes next ps

-- All that the iterations may write.
unfoldable pub payload_bytes : PublisherSession → List Publishing → ℕ
payload_bytes s [] = 0
payload_bytes s (p ∷ ps) = length (published_payload s p) + payload_bytes s ps

-- The metric has no sample, or one whose backpressure is the length of the payload.
abbrev pub MeasuresPayload : RequestMetric → Type 0
MeasuresPayload m = elim m.protocol [
  | some (Samples.ws s) ↦ s.backpressure_max_bytes ≡ m.bytes_received
  | _ ↦ Unit
]

-- Between iterations the sink has nothing in flight, and room for what is written yet.
abbrev IsDrained : ℕ → Option CountingSink → Type 0
IsDrained room none = Unit
IsDrained room (some c) = (c.flushed ≡ c.written) × (c.written + room < u64_mod)

abbrev Holds : ℕ → PublisherSession → Bytes → Type 0
Holds room s payload = IsDrained room s.write × (s.user_payload ≡ payload)

all_true : (a b c : Bool) → a && b && c ≡ true → a ≡ true
all_true true b c h = refl
all_true false b c h = ground arith

fed :
    (room : ℕ) (c : CountingSink) (p : Publishing) (payload : Bytes)
    → p.ready ≡ true
    → c.flushed ≡ c.written
    → c.written + (length payload + room) < u64_mod
    → (in_flight (feed_sink c p payload) ≡ length payload)
      × ((feed_sink c p payload).written + room < u64_mod)
unfolding feed_sink start_send in_flight message_payload_len
fed room c p payload r e h = rw (r, feed_sink) (omega (arith, e, h), omega (arith, e, h))

send_payload-MeasuresPayload :
    (w room : ℕ) (s : PublisherSession) (p : Publishing) (c : CountingSink)
    → c.flushed ≡ c.written
    → c.written + (length (published_payload s p) + room) < u64_mod
    → MeasuresPayload (send_payload w s p c).1 × Holds room (send_payload w s p c).0 s.user_payload
unfolding send_payload published_metric with_sample socket_reused timestamp_sent_ns bytes status
    builder poll_flush
send_payload-MeasuresPayload w room s p c e h =
    elim (Bool-cases (p.ready && p.accepts && p.drains)) [
      | inr f ↦ rw (f, send_payload) (tt, (tt, refl))
      | inl t ↦
          let done =
            fed room c p (published_payload s p) (all_true p.ready p.accepts p.drains t) e h in
          rw (t, send_payload) (done.0, ((refl, done.1), refl))
    ]

-- The sink of an iteration starts with nothing in flight too.
connected-IsDrained :
    (w room : ℕ) (o : Option CountingSink) (connects : Bool)
    → room < u64_mod
    → IsDrained room o
    → IsDrained room (connected_sink w o connects)
unfolding connected_sink new
connected-IsDrained w room (some c) connects b h = h
connected-IsDrained w room none true b h = (refl, omega (arith, b))
connected-IsDrained w room none false b h = tt

less_room :
    (room less : ℕ) (o : Option CountingSink) → less ≤ room → IsDrained room o → IsDrained less o
less_room room less none h d = tt
less_room room less (some c) h d = (d.0, omega (arith, d.1))

publish_on :
    (w room : ℕ) (s : PublisherSession) (p : Publishing) (o : Option CountingSink)
    → IsDrained (length (published_payload s p) + room) o
    → IsDrained (length (published_payload s p) + room) s.write
    → let next : PublisherSession × RequestMetric = elim o [
      | none ↦ (s, builder p.latency_micros none)
      | some c ↦
          if is_dropped p.fault
          then (record s { write = some c }, builder p.latency_micros p.fault)
          else send_payload w s p c
    ] in
      MeasuresPayload next.1 × Holds room next.0 s.user_payload
unfolding builder
publish_on w room s p none d k = (tt, (less_room _ room s.write (omega arith) k, refl))
publish_on w room s p (some c) d k = elim (Bool-cases (is_dropped p.fault)) [
  | inl t ↦ rw t (tt, (less_room _ room (some c) (omega arith) d, refl))
  | inr t ↦ rw t (send_payload-MeasuresPayload w room s p c d.0 d.1)
]

iteration-MeasuresPayload :
    (w room : ℕ) (s : PublisherSession) (p : Publishing)
    → length (published_payload s p) + room < u64_mod
    → IsDrained (length (published_payload s p) + room) s.write
    → MeasuresPayload (execute_publisher_iteration w s p).1
      × Holds room (execute_publisher_iteration w s p).0 s.user_payload
unfolding execute_publisher_iteration
iteration-MeasuresPayload w room s p b d =
    publish_on w room s p (connected_sink w s.write p.connects)
      (connected-IsDrained w _ s.write p.connects b d) d

payload_bytes_same :
    (s t : PublisherSession) (ps : List Publishing)
    → s.user_payload ≡ t.user_payload
    → payload_bytes s ps ≡ payload_bytes t ps
unfolding payload_bytes published_payload
payload_bytes_same s t [] e = refl
payload_bytes_same s t (p ∷ ps) e = rw (e, payload_bytes_same s t ps e) refl

publish_all-MeasuresPayload :
    (w : ℕ) (s : PublisherSession) (ps : List Publishing)
    → payload_bytes s ps < u64_mod
    → IsDrained (payload_bytes s ps) s.write
    → All MeasuresPayload (publish_all w s ps)
unfolding publish_all payload_bytes
publish_all-MeasuresPayload w s [] b d = tt
publish_all-MeasuresPayload w s (p ∷ ps) b d =
    let one = iteration-MeasuresPayload w (payload_bytes s ps) s p b d in
    let next = (execute_publisher_iteration w s p).0 in
    let same = payload_bytes_same next s ps one.1.1 in
    (
      one.0,
      publish_all-MeasuresPayload w next ps (omega (arith, same, b))
          (less_room (payload_bytes s ps) _ next.write (omega (arith, same)) one.1.0),
    )

-- Over the iterations of a new publisher that write fewer than 2 ^ 64 bytes, the backpressure that
-- a sample reports is the length of the payload that its iteration sent: the sink has nothing else
-- in flight.
pub backpressure_is_payload :
    (warn_bytes : ℕ) (user_payload : Bytes) (ps : List Publishing)
    → payload_bytes (new_publisher user_payload) ps < u64_mod
    → All MeasuresPayload (publish_all warn_bytes (new_publisher user_payload) ps)
backpressure_is_payload warn_bytes user_payload ps b =
    publish_all-MeasuresPayload warn_bytes (new_publisher user_payload) ps b tt
