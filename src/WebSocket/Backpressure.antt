-- ===== src/WebSocket/Backpressure.antt =====
-- `CountingSink` of src/protocols/websocket.rs refines a sink that adds up what was sent since the
-- last flush.
use strobengine.Prelude.{ℕ, ◌+◌, ◌<◌, ◌≤◌, ◌≡◌, refl, Bool, true, false, List, [], ◌∷◌, max, arith}
use strobengine.Prelude.Words.{u64_mod}
use strobengine.WebSocket.{
  Message, message_payload_len, CountingSink, new, in_flight, start_send, poll_flush,
}

-- What happens to a sink.
pub data SinkEvent : Type 0 where
  sends : Message → SinkEvent
  flushes : Bool → SinkEvent

unfoldable pub drive : CountingSink → List SinkEvent → CountingSink
drive c [] = c
drive c (sends item ∷ es) = drive (start_send c item) es
drive c (flushes ready ∷ es) = drive (poll_flush c ready) es

-- The payload sent since the last flush that was ready, and the most that there ever was.
pub record Depth : Type 0 where
  pub current : ℕ
  pub peak : ℕ

unfoldable pub depths : Depth → List SinkEvent → Depth
depths d [] = d
depths d (sends item ∷ es) =
    let current = d.current + message_payload_len item in
    depths (record { current = current; peak = max d.peak current }) es
depths d (flushes true ∷ es) = depths (record d { current = 0 }) es
depths d (flushes false ∷ es) = depths d es

-- All that the events send.
unfoldable pub sent : List SinkEvent → ℕ
sent [] = 0
sent (sends item ∷ es) = message_payload_len item + sent es
sent (flushes ready ∷ es) = sent es

-- The sink's counters stand for the depth.
abbrev pub Represents : CountingSink → Depth → Type 0
Represents c d = (c.written ≡ c.flushed + d.current) × (c.max_in_flight ≡ d.peak)

start_send-Represents :
    (c : CountingSink) (d : Depth) (item : Message)
    → Represents c d
    → c.written + message_payload_len item < u64_mod
    → Represents (start_send c item) (record {
      current = d.current + message_payload_len item;
      peak = max d.peak (d.current + message_payload_len item);
    })
unfolding start_send
start_send-Represents c d item r h = (ground (arith, r.0), ground (arith, r.0, r.1))

written-start_send :
    (c : CountingSink) (item : Message)
    → (start_send c item).written ≤ c.written + message_payload_len item
unfolding start_send
written-start_send c item = omega arith

drive-Represents :
    (c : CountingSink) (d : Depth) (es : List SinkEvent)
    → Represents c d
    → c.written + sent es < u64_mod
    → Represents (drive c es) (depths d es)
unfolding drive depths sent poll_flush
drive-Represents c d [] r h = r
drive-Represents c d (sends item ∷ es) r h =
    drive-Represents (start_send c item) _ es (start_send-Represents c d item r (omega arith))
      (omega (arith, written-start_send c item))
drive-Represents c d (flushes true ∷ es) r h =
    drive-Represents (poll_flush c true) (record d { current = 0 }) es (omega arith, r.1) h
drive-Represents c d (flushes false ∷ es) r h = drive-Represents c d es r h

-- The bytes in flight are the payload sent since the last flush that was ready, and the high-water
-- mark is the most that there ever was, if the sink is sent fewer than 2 ^ 64 bytes in all.
pub drive_refines :
    (warn_bytes : ℕ) (es : List SinkEvent)
    → sent es < u64_mod
    → let d = depths (record { current = 0; peak = 0 }) es in
      let c = drive (new warn_bytes) es in (in_flight c ≡ d.current) × (c.max_in_flight ≡ d.peak)
unfolding new in_flight
drive_refines warn_bytes es h =
    let r =
      drive-Represents (new warn_bytes) (record { current = 0; peak = 0 }) es (refl, refl)
        (omega arith) in
    (omega (arith, r.0), r.1)
