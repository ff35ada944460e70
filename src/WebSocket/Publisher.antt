-- ===== src/WebSocket/Publisher.antt =====
-- The publisher iterations of src/protocols/websocket.rs. The drawn fault, what the network does and
-- the latencies measured are arguments.
use strobengine.Prelude.{ℕ, Bool, true, Option, none, some, leb, ltb, ◌&&◌, if◌then◌else◌, length}
use strobengine.Text.Utf8.{Bytes}
use strobengine.Chaos.{ChaosFault}
use strobengine.Metrics.Samples.{ws}
use strobengine.Metrics.Request.{
  RequestMetric, builder, status, bytes, socket_reused, timestamp_sent_ns, with_sample,
}
use strobengine.Metrics.Pubsub.{create_pubsub_payload}
use strobengine.WebSocket.{
  binary, CountingSink, new, in_flight, start_send, poll_flush, is_dropped, is_corrupted,
  corrupted_bytes,
}

-- `PublisherSession`
pub record PublisherSession : Type 0 where
  pub write : Option CountingSink
  pub user_payload : Bytes

-- What one publisher iteration meets: whether a connect succeeds, the fault, the wall clock when
-- the payload is made and at the end, the latency, and what the sink does: `ready` to take the
-- frame, `accepts` it, `drains` on the flush without an error.
pub record Publishing : Type 0 where
  pub connects : Bool
  pub fault : Option ChaosFault
  pub made_ns : ℕ
  pub end_ns : ℕ
  pub latency_micros : ℕ
  pub ready : Bool
  pub accepts : Bool
  pub drains : Bool

-- The sink of the iteration: the session's, or a new one if the connect succeeds.
unfoldable pub connected_sink : ℕ → Option CountingSink → Bool → Option CountingSink
connected_sink warn_bytes (some c) connects = some c
connected_sink warn_bytes none connects = if connects then some (new warn_bytes) else none

unfoldable pub published_payload : PublisherSession → Publishing → Bytes
published_payload s p =
    if is_corrupted p.fault then corrupted_bytes else create_pubsub_payload p.made_ns s.user_payload

-- `feed`: the frame reaches the sink once it is ready.
unfoldable pub feed_sink : CountingSink → Publishing → Bytes → CountingSink
feed_sink c p payload = if p.ready then start_send c (binary payload) else c

unfoldable pub published_metric : ℕ → Publishing → ℕ → ℕ → RequestMetric
published_metric warn_bytes p payload_len depth =
    with_sample ws
      (some (record {
        pings_sent = 0;
        pings_received = 0;
        pongs_solicited = 0;
        pongs_unsolicited = 0;
        backpressure_max_bytes = depth;
        backpressure_samples_sum = depth;
        backpressure_sample_count = 1;
        threshold_breaches = if ltb 0 warn_bytes && leb warn_bytes depth then 1 else 0;
      }))
      (socket_reused true (
        timestamp_sent_ns (some p.end_ns)
          (bytes payload_len (status 200 (builder p.latency_micros p.fault)))))

unfoldable pub send_payload :
    ℕ → PublisherSession → Publishing → CountingSink → PublisherSession × RequestMetric
send_payload warn_bytes s p c =
    let payload = published_payload s p in
    let fed = feed_sink c p payload in
    if p.ready && p.accepts && p.drains
    then (
      record s { write = some (poll_flush fed true) },
      published_metric warn_bytes p (length payload) (in_flight fed),
    )
    else (record s { write = none }, builder p.latency_micros p.fault)

-- `execute_publisher_iteration`; the flush is polled until it is ready.
unfoldable pub execute_publisher_iteration :
    ℕ → PublisherSession → Publishing → PublisherSession × RequestMetric
execute_publisher_iteration warn_bytes s p = elim (connected_sink warn_bytes s.write p.connects) [
  | none ↦ (s, builder p.latency_micros none)
  | some c ↦
      if is_dropped p.fault
      then (record s { write = some c }, builder p.latency_micros p.fault)
      else send_payload warn_bytes s p c
]
