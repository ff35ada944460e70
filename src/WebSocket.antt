-- ===== src/WebSocket.antt =====
-- The WebSocket engine, src/protocols/websocket.rs: messages, the sink that accounts for the write
-- buffer, and bounded reading. What the peer and the network do is an argument.
pub mod Backpressure
pub mod Publisher
pub mod Subscriber
pub mod Exchanges
pub mod Stateless
pub mod Published
pub mod Persistent
pub mod EndToEnd
mod Tests
use strobengine.Prelude.{
  ℕ, ◌+◌, ◌-◌, Bool, true, false, List, [], ◌∷◌, Option, none, some, min, leb, ltb, ◌&&◌, not,
  if◌then◌else◌, length,
}
use strobengine.Prelude.Words.{u64_mod, add64}
use strobengine.Text.Utf8.{Bytes}
use strobengine.Chaos.{ChaosFault, connection_drop, corrupted_payload}
use strobengine.Metrics.Samples.{WsSample, ws_is_significant}

-- tungstenite's `Message`; the frame is its payload.
pub data Message : Type 0 where
  text binary ping pong frame : Bytes → Message
  close : Message

unfoldable pub message_payload_len : Message → ℕ
message_payload_len (text t) = length t
message_payload_len (binary b) = length b
message_payload_len (ping p) = length p
message_payload_len (pong p) = length p
message_payload_len (frame f) = length f
message_payload_len close = 0

unfoldable pub ws_sample : ℕ → ℕ → ℕ → ℕ → Option WsSample
ws_sample pings_sent pings_received pongs_solicited pongs_unsolicited =
    let sample : WsSample = record {
      pings_sent = pings_sent;
      pings_received = pings_received;
      pongs_solicited = pongs_solicited;
      pongs_unsolicited = pongs_unsolicited;
      backpressure_max_bytes = 0;
      backpressure_samples_sum = 0;
      backpressure_sample_count = 0;
      threshold_breaches = 0;
    } in
    if ws_is_significant sample then some sample else none

unfoldable pub is_dropped : Option ChaosFault → Bool
is_dropped (some connection_drop) = true
is_dropped _ = false

unfoldable pub is_corrupted : Option ChaosFault → Bool
is_corrupted (some corrupted_payload) = true
is_corrupted _ = false

abbrev pub corrupted_bytes : Bytes
corrupted_bytes = 0xFF ∷ 0xFE ∷ 0xBD ∷ 0xEF ∷ []

-- `CountingSink`, less the sink that it wraps.
pub record CountingSink : Type 0 where
  pub written : ℕ
  pub flushed : ℕ
  pub max_in_flight : ℕ
  pub warn_bytes : ℕ
  pub over_threshold : Bool

unfoldable pub new : ℕ → CountingSink
new warn_bytes = record {
  written = 0;
  flushed = 0;
  max_in_flight = 0;
  warn_bytes = warn_bytes;
  over_threshold = false;
}

-- `saturating_sub`
unfoldable pub in_flight : CountingSink → ℕ
in_flight c = c.written - c.flushed

-- `a.saturating_add(b)` on u64
abbrev pub saturating_add : ℕ → ℕ → ℕ
saturating_add a b = min (a + b) (u64_mod - 1)

unfoldable pub start_send : CountingSink → Message → CountingSink
start_send c item =
    let written = saturating_add c.written (message_payload_len item) in
    let depth = written - c.flushed in
    record c {
      written = written;
      max_in_flight = if ltb c.max_in_flight depth then depth else c.max_in_flight;
      over_threshold =
          if ltb 0 c.warn_bytes
          then (if leb c.warn_bytes depth && not c.over_threshold
              then true
              else if ltb depth c.warn_bytes
              then false
              else c.over_threshold)
          else c.over_threshold;
    }

-- `poll_flush`: whether the wrapped sink's flush is ready.
unfoldable pub poll_flush : CountingSink → Bool → CountingSink
poll_flush c ready = if ready then record c { flushed = c.written } else c

pub data ReadStatus : Type 0 where
  data_frame pong_frame closed eof broken timeout : ReadStatus

pub record ReadOutcome : Type 0 where
  pub status : ReadStatus
  pub bytes : ℕ
  pub pings_received : ℕ
  pub pongs_received : ℕ

-- What a read meets: a message, an error, or that the time is up while it waits. The end of the
-- list is the end of the stream.
pub data Arrival : Type 0 where
  arrives : Message → Arrival
  fails elapses : Arrival

abbrev stopped : ReadStatus → ℕ → ℕ → ℕ → ReadOutcome
stopped status bytes pings pongs = record {
  status = status;
  bytes = bytes;
  pings_received = pings;
  pongs_received = pongs;
}

-- `read_with_timeout`, with the counters so far.
unfoldable pub read_from : ℕ → ℕ → ℕ → List Arrival → ReadOutcome
read_from bytes pings pongs [] = stopped eof bytes pings pongs
read_from bytes pings pongs (arrives (text t) ∷ rest) =
    stopped data_frame (add64 bytes (length t)) pings pongs
read_from bytes pings pongs (arrives (binary b) ∷ rest) =
    stopped data_frame (add64 bytes (length b)) pings pongs
read_from bytes pings pongs (arrives (ping p) ∷ rest) =
    read_from (add64 bytes (length p)) (add64 pings 1) pongs rest
read_from bytes pings pongs (arrives (pong p) ∷ rest) =
    stopped pong_frame (add64 bytes (length p)) pings (add64 pongs 1)
read_from bytes pings pongs (arrives close ∷ rest) = stopped closed bytes pings pongs
read_from bytes pings pongs (arrives (frame f) ∷ rest) = read_from bytes pings pongs rest
read_from bytes pings pongs (fails ∷ rest) = stopped broken bytes pings pongs
read_from bytes pings pongs (elapses ∷ rest) = stopped timeout 0 0 0

unfoldable pub read_with_timeout : List Arrival → ReadOutcome
read_with_timeout arrivals = read_from 0 0 0 arrivals
