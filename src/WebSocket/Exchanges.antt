-- ===== src/WebSocket/Exchanges.antt =====
-- The persistent sessions of src/protocols/websocket.rs. The drawn fault, what the peer and the
-- network do and the latencies measured are arguments.
use strobengine.Prelude.{
  ℕ, Bool, false, List, [], ◌∷◌, Option, none, some, leb, ltb, ◌==◌, ◌&&◌, not, if◌then◌else◌,
  length,
}
use strobengine.Prelude.Words.{add64}
use strobengine.Text.Utf8.{Bytes}
use strobengine.Chaos.{ChaosFault}
use strobengine.Metrics.Samples.{ws, is_some}
use strobengine.Metrics.Request.{
  RequestMetric, builder, status, bytes, reconnect, socket_reused, connection_latency_us,
  with_sample,
}
use strobengine.WebSocket.{
  text, binary, ping, pong, frame, close, ws_sample, Arrival, arrives, fails, elapses, is_dropped,
}

-- `PersistentWsSession`, less its headers and its timeout.
pub record PersistentWsSession : Type 0 where
  pub stream : Option (List Arrival)
  pub messages_sent : ℕ
  pub max_messages : Option ℕ
  pub last_pings_received : ℕ
  pub last_pongs_received : ℕ

unfoldable pub new_persistent : Option ℕ → PersistentWsSession
new_persistent max_messages = record {
  stream = none;
  messages_sent = 0;
  max_messages = max_messages;
  last_pings_received = 0;
  last_pongs_received = 0;
}

unfoldable pub is_max_reached : PersistentWsSession → Bool
is_max_reached s = elim s.max_messages [ none ↦ false | some max ↦ leb max s.messages_sent ]

-- `ensure_connected`: the session and the connection latency, unless the connect that takes
-- `latency` fails.
unfoldable pub ensure_connected :
    PersistentWsSession → Option (List Arrival) → ℕ → Option (PersistentWsSession × ℕ)
ensure_connected s connection latency =
    if is_some s.stream && not (is_max_reached s) then some (s, 0) else elim connection [
      | none ↦ none
      | some arrivals ↦ some (record s { stream = some arrivals; messages_sent = 0 }, latency)
    ]

-- How the read of a response ends: with its bytes, without them, or when the time is up.
pub data Answer : Type 0 where
  answered : Bytes → ℕ → ℕ → List Arrival → Answer
  terminated : ℕ → ℕ → Answer
  unanswered : List Arrival → Answer

unfoldable pub await_answer : ℕ → ℕ → List Arrival → Answer
await_answer pings pongs [] = terminated pings pongs
await_answer pings pongs (arrives (text t) ∷ rest) = answered t pings pongs rest
await_answer pings pongs (arrives (binary b) ∷ rest) = answered b pings pongs rest
await_answer pings pongs (arrives (ping p) ∷ rest) = await_answer (add64 pings 1) pongs rest
await_answer pings pongs (arrives (pong p) ∷ rest) = await_answer pings (add64 pongs 1) rest
await_answer pings pongs (arrives (frame f) ∷ rest) = await_answer pings pongs rest
await_answer pings pongs (arrives close ∷ rest) = terminated pings pongs
await_answer pings pongs (fails ∷ rest) = terminated pings pongs
await_answer pings pongs (elapses ∷ rest) = unanswered rest

unfoldable pub take_answer : PersistentWsSession → Answer → PersistentWsSession × Option Bytes
take_answer s (answered response pings pongs rest) = (
  record s { stream = some rest; last_pings_received = pings; last_pongs_received = pongs },
  some response,
)
take_answer s (terminated pings pongs) =
    (record s { stream = none; last_pings_received = pings; last_pongs_received = pongs }, none)
take_answer s (unanswered rest) = (record s { stream = some rest }, none)

-- `send_and_receive`: the response, or `none` for an error; `sends` when the send succeeds.
unfoldable pub send_and_receive : PersistentWsSession → Bool → PersistentWsSession × Option Bytes
send_and_receive s sends = elim s.stream [
  | none ↦ (s, none)
  | some arrivals ↦
      if sends
      then take_answer
          (record s {
            messages_sent = add64 s.messages_sent 1;
            last_pings_received = 0;
            last_pongs_received = 0;
          })
          (await_answer 0 0 arrivals)
      else (record s { stream = none }, none)
]

-- What one iteration meets: the fault, what a connect gives and how long it takes, whether the
-- send succeeds, and the latency.
pub record Exchange : Type 0 where
  pub fault : Option ChaosFault
  pub connection : Option (List Arrival)
  pub connect_micros : ℕ
  pub sends : Bool
  pub latency_micros : ℕ

unfoldable pub exchange_metric : Exchange → ℕ → PersistentWsSession × Option Bytes → RequestMetric
exchange_metric x latency (s, response) =
    with_sample ws (ws_sample 0 s.last_pings_received 0 s.last_pongs_received) (
      socket_reused (latency == 0) (
        connection_latency_us (some latency) (
          reconnect (ltb 0 latency) (elim response [
            | none ↦ builder x.latency_micros x.fault
            | some r ↦ bytes (length r) (status 200 (builder x.latency_micros x.fault))
          ]))))

-- `execute_iteration_with_context` on a persistent session.
unfoldable pub execute_persistent_iteration :
    PersistentWsSession → Exchange → PersistentWsSession × RequestMetric
execute_persistent_iteration s x =
    if is_dropped x.fault
    then (s, builder x.latency_micros x.fault)
    else elim (ensure_connected s x.connection x.connect_micros) [
      | none ↦ (s, builder 0 x.fault)
      | some connected ↦
          let done = send_and_receive connected.0 x.sends in
          (done.0, exchange_metric x connected.1 done)
    ]
