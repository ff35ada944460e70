-- ===== src/WebSocket/Stateless.antt =====
-- The stateless iteration of src/protocols/websocket.rs. The drawn fault, what the peer and the
-- network do and the latency measured are arguments.
use strobengine.Prelude.{
  ℕ, ◌-◌, Bool, true, false, List, Option, none, some, min, ◌||◌, not, if◌then◌else◌,
}
use strobengine.Chaos.{ChaosFault}
use strobengine.Metrics.Samples.{ws, WsSample}
use strobengine.Metrics.Request.{RequestMetric, builder, status, bytes, with_sample}
use strobengine.WebSocket.{
  ws_sample, Arrival, ReadStatus, data_frame, pong_frame, ReadOutcome, read_with_timeout,
  is_dropped, is_corrupted,
}

-- `WsMode`
pub data WsMode : Type 0 where
  handshake ping_pong stream : WsMode

-- The status code, the bytes and the sample of an iteration.
abbrev Outcome : Type 0
Outcome = ℕ × ℕ × Option WsSample

abbrev is_answer : ReadStatus → Bool
is_answer data_frame = true
is_answer pong_frame = true
is_answer _ = false

unfoldable pub unsolicited_outcome : ReadOutcome → Outcome
unsolicited_outcome o =
    let sample = ws_sample 0 o.pings_received 0 o.pongs_received in
    if is_answer o.status then (200, o.bytes, sample) else (0, 0, sample)

abbrev pub is_pong : ReadStatus → Bool
is_pong pong_frame = true
is_pong _ = false

unfoldable pub ping_pong_outcome : Bool → ReadOutcome → Outcome
ping_pong_outcome sent_ok o =
    let pings_sent = if sent_ok then 1 else 0 in
    let pongs_solicited = min o.pongs_received pings_sent in
    let sample =
      ws_sample pings_sent o.pings_received pongs_solicited (o.pongs_received - pongs_solicited) in
    if is_pong o.status then (200, o.bytes, sample) else (0, 0, sample)

unfoldable pub connected_outcome : WsMode → Option ChaosFault → Bool → ReadOutcome → Outcome
connected_outcome mode fault sent_ok o =
    if is_corrupted fault then unsolicited_outcome o else elim mode [
      | handshake ↦ (200, 0, none)
      | ping_pong ↦ ping_pong_outcome sent_ok o
      | stream ↦ unsolicited_outcome o
    ]

-- `execute_iteration`: `connection` is what the connect gives, with its arrivals; `is_url` when the
-- target is a WebSocket URL, and `sent_ok` when the first send succeeds.
unfoldable pub execute_iteration :
    WsMode → Option ChaosFault → Bool → Option (List Arrival) → Bool → ℕ → RequestMetric
execute_iteration mode fault is_url connection sent_ok latency =
    if is_dropped fault || not is_url
    then builder latency fault
    else (let outcome : Outcome = elim connection [
      | none ↦ (0, 0, none)
      | some arrivals ↦ connected_outcome mode fault sent_ok (read_with_timeout arrivals)
    ] in
        with_sample ws outcome.2 (bytes outcome.1 (status outcome.0 (builder latency fault))))
