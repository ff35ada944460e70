-- ===== src/WebSocket/Subscriber.antt =====
-- The subscriber iterations of src/protocols/websocket.rs. The drawn fault, what the peer sends and
-- the latencies measured are arguments.
use strobengine.Prelude.{
  ℕ, ◌-◌, ◌/◌, true, List, [], ◌∷◌, Option, none, some, ltb, ◌||◌, if◌then◌else◌, length,
}
use strobengine.Prelude.Words.{add64}
use strobengine.Text.Utf8.{Bytes}
use strobengine.Chaos.{ChaosFault}
use strobengine.Metrics.Samples.{ws, WsSample}
use strobengine.Metrics.Request.{
  RequestMetric, builder, status, bytes, socket_reused, e2e_latency_us, with_sample,
}
use strobengine.Metrics.Pubsub.{parse_pubsub_payload}
use strobengine.WebSocket.{
  text, binary, ping, pong, frame, close, Arrival, arrives, fails, elapses, is_dropped,
}

-- `SubscriberSession`
pub record SubscriberSession : Type 0 where
  pub read : Option (List Arrival)
  pub received_count : ℕ

pub data Received : Type 0 where
  message : Bytes → ℕ → ℕ → List Arrival → Received
  gone : Received
  timed_out : List Arrival → Received

-- The reading loop, with the pings and pongs so far.
unfoldable pub receive : ℕ → ℕ → List Arrival → Received
receive pings pongs [] = gone
receive pings pongs (arrives (text t) ∷ rest) = message t pings pongs rest
receive pings pongs (arrives (binary b) ∷ rest) = message b pings pongs rest
receive pings pongs (arrives (ping p) ∷ rest) = receive (add64 pings 1) pongs rest
receive pings pongs (arrives (pong p) ∷ rest) = receive pings (add64 pongs 1) rest
receive pings pongs (arrives (frame f) ∷ rest) = receive pings pongs rest
receive pings pongs (arrives close ∷ rest) = gone
receive pings pongs (fails ∷ rest) = gone
receive pings pongs (elapses ∷ rest) = timed_out rest

abbrev heard : ℕ → ℕ → Option WsSample
heard pings pongs =
    if ltb 0 pings || ltb 0 pongs
    then (some (record {
      pings_sent = 0;
      pings_received = pings;
      pongs_solicited = 0;
      pongs_unsolicited = pongs;
      backpressure_max_bytes = 0;
      backpressure_samples_sum = 0;
      backpressure_sample_count = 0;
      threshold_breaches = 0;
    }))
    else none

-- `now_ns.saturating_sub(sent_ns) / 1000`
unfoldable pub e2e_of : ℕ → Bytes → Option ℕ
e2e_of now_ns payload = elim (parse_pubsub_payload payload) [
  | none ↦ none
  | some p ↦ some ((now_ns - p.0) / 1000)
]

unfoldable pub finish_receive :
    SubscriberSession → Option ChaosFault → ℕ → ℕ → Received → SubscriberSession × RequestMetric
finish_receive s fault latency now_ns (message payload pings pongs rest) = (
  record s { read = some rest; received_count = add64 s.received_count 1 },
  with_sample ws (heard pings pongs) (
      socket_reused true (
        e2e_latency_us (e2e_of now_ns payload)
          (bytes (length payload) (status 200 (builder latency fault))))),
)
finish_receive s fault latency now_ns gone = (record s { read = none }, builder latency fault)
finish_receive s fault latency now_ns (timed_out rest) =
    (record s { read = some rest }, builder latency fault)

abbrev connected_read : Option (List Arrival) → Option (List Arrival) → Option (List Arrival)
connected_read (some arrivals) connection = some arrivals
connected_read none connection = connection

-- `execute_subscriber_iteration`; `connection` is what a connect gives, with its arrivals.
unfoldable pub execute_subscriber_iteration :
    SubscriberSession
    → Option (List Arrival)
    → Option ChaosFault
    → ℕ
    → ℕ
    → SubscriberSession × RequestMetric
execute_subscriber_iteration s connection fault latency now_ns =
    elim (connected_read s.read connection) [
      | none ↦ (s, builder latency none)
      | some arrivals ↦
          if is_dropped fault
          then (record s { read = some arrivals }, builder latency fault)
          else finish_receive s fault latency now_ns (receive 0 0 arrivals)
    ]
