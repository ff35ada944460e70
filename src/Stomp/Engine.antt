-- ===== src/Stomp/Engine.antt =====
-- `produce` and `consume` of a session of src/protocols/stomp.rs, and the engine's iterations.
use strobengine.Prelude.{
  ℕ, ◌-◌, ◌/◌, ◌%◌, Bool, true, false, [], ◌∷◌, ◌++◌, Option, none, some, if◌then◌else◌, length,
}
use strobengine.Prelude.Words.{u64_mod, add64}
use strobengine.Text.Utf8.{Bytes}
use strobengine.Text.Print.{decimal}
use strobengine.Chaos.{ascii, ChaosFault, metadata_corruption, connection_drop}
use strobengine.Metrics.Samples.{StompSample}
use strobengine.Metrics.Samples
use strobengine.Metrics.Request.{RequestMetric, builder, status, bytes, with_sample}
use strobengine.Stomp.Frame.{Frame, new as new_frame, Headers, set_header, encode}
use strobengine.Stomp.Decoder.{new as new_decoder}
use strobengine.Stomp.Connection.{Stream, unwound, waiting, succeeds, fails, write_to}
use strobengine.Stomp.Session.{
  StompAck, auto, StompSession, ack_frame, reset_session, Dial, Attempt, ◌then_do◌, write_bytes,
  read_frames, ensure_session_connected, ensure_subscribed, receipt_arm, message_arm, input_payload,
}

-- What an iteration meets: the drawn fault, a connect, and its instants.
pub record Iteration : Type 0 where
  pub fault : Option ChaosFault
  pub dial : Dial
  pub start : ℕ
  pub write_start : ℕ
  pub subscribed_now : ℕ
  pub sent_now : ℕ
  pub message_now : ℕ
  pub returned : ℕ

-- `later.duration_since(earlier).as_micros()`
abbrev micros_since : ℕ → ℕ → ℕ
micros_since later earlier = (later - earlier) / 1000

-- `as u64`
abbrev to_u64 : ℕ → ℕ
to_u64 value = value % u64_mod

-- `u64::from(self.reconnected_this_iteration)`
abbrev pub reconnects_of : StompSession → ℕ
reconnects_of s = if s.reconnected_this_iteration then 1 else 0

-- `StompSample::default()` with the reconnects.
abbrev empty_sample : StompSession → StompSample
empty_sample s = record {
  messages_sent = 0;
  messages_received = 0;
  bytes_sent = 0;
  bytes_received = 0;
  errors = 0;
  reconnects = reconnects_of s;
  send_latency_us = none;
  receive_interval_us = none;
  ttfm_us = none;
}

unfoldable pub error_metric : StompSession → Iteration → RequestMetric
error_metric s x =
    with_sample Samples.stomp (some (record (empty_sample s) { errors = 1 }))
      (status 0 (builder (micros_since x.returned x.start) x.fault))

abbrev pub with_headers : Frame → Headers → Frame
with_headers f [] = f
with_headers f ((name, value) ∷ rest) = with_headers (set_header f name value) rest

abbrev pub with_chaos : Frame → Option ChaosFault → Frame
with_chaos f (some metadata_corruption) =
    set_header f (ascii "x-chaos") (ascii "metadata-corruption")
with_chaos f _ = f

abbrev pub with_receipt : Frame → Option Bytes → Frame
with_receipt f none = f
with_receipt f (some id) = set_header f (ascii "receipt") id

abbrev pub next_seq : StompSession → StompSession
next_seq s = if s.receipt then record s { receipt_seq = add64 s.receipt_seq 1 } else s

-- The receipt that is asked for, by the number that `next_seq` has counted.
abbrev pub receipt_id : StompSession → Option Bytes
receipt_id s = if s.receipt then some (ascii "r-" ++ decimal s.receipt_seq) else none

-- The `SEND` frame.
unfoldable pub send_frame : StompSession → Option ChaosFault → Frame
send_frame s fault =
    let body = input_payload s fault in
    let destined = set_header (new_frame (ascii "SEND")) (ascii "destination") s.destination in
    let marked = with_chaos (with_headers destined s.headers) fault in
    let sized = set_header marked (ascii "content-length") (decimal (length body)) in
    with_receipt (record sized { body = body }) (receipt_id s)

-- `await_receipt`, where there is an id to wait for.
unfoldable pub await_receipt : Option Bytes → StompSession → Attempt Unit
await_receipt none s = (succeeds tt, s)
await_receipt (some id) s = read_frames (receipt_arm id) s

abbrev sent_sample : StompSession → Iteration → Bytes → StompSample
sent_sample s x sent = record (empty_sample s) {
  messages_sent = 1;
  bytes_sent = to_u64 (length sent);
  send_latency_us =
      some (to_u64 (micros_since x.sent_now (if s.receipt then x.start else x.write_start)));
}

-- `produce` up to its metric.
unfoldable pub try_produce : Iteration → StompSession → Attempt StompSample
try_produce x s = ensure_session_connected x.dial s then_do (λ _ live.
    let counted = next_seq live in
    let sent = encode (send_frame counted x.fault) in
    write_bytes sent counted then_do (λ _ flushed.
      await_receipt (receipt_id counted) flushed
      then_do (λ _ acked. (succeeds (sent_sample acked x sent), acked))))

abbrev since : ℕ → Option ℕ → Option ℕ
since now none = none
since now (some earlier) = some (to_u64 (micros_since now earlier))

-- What a message changes in the session.
abbrev pub note_message : ℕ → StompSession → StompSession
note_message now s = record s { saw_first_message = true; last_message_at = some now }

abbrev received_sample : StompSession → StompSession → ℕ → ℕ → StompSample
received_sample before after now body_len = record (empty_sample after) {
  messages_received = 1;
  bytes_received = body_len;
  receive_interval_us = since now before.last_message_at;
  ttfm_us = if before.saw_first_message then none else since now before.subscribed_at;
}

-- The `ACK` that a mode other than `auto` sends.
unfoldable pub acknowledge : Option Bytes → StompSession → Attempt Unit
acknowledge none s = (succeeds tt, s)
acknowledge (some id) s = elim s.ack [
  | auto ↦ (succeeds tt, s)
  | _ ↦ write_bytes (encode (ack_frame id)) s
]

-- `consume` up to its metric.
unfoldable pub try_consume : Iteration → StompSession → Attempt StompSample
try_consume x s = ensure_session_connected x.dial s then_do (λ _ live.
    ensure_subscribed x.subscribed_now live then_do (λ _ listening.
      read_frames message_arm listening then_do (λ message heard.
        acknowledge message.1 (note_message x.message_now heard) then_do (λ _ acked.
          (succeeds (received_sample heard acked x.message_now message.0), acked)))))

-- A success is a metric with status 200; an error resets the session; a panic ends the worker, and an
-- iteration that waits has not returned.
unfoldable pub conclude : Iteration → Attempt StompSample → Option (StompSession × RequestMetric)
conclude x (succeeds sample, s) = some (
  s,
  with_sample Samples.stomp (some sample) (
      bytes sample.bytes_received (status 200 (builder (micros_since x.returned x.start) x.fault))),
)
conclude x (fails unwound, s) = none
conclude x (fails waiting, s) = none
conclude x (fails e, s) = some (reset_session s, error_metric (reset_session s) x)

unfoldable pub produce : Iteration → StompSession → Option (StompSession × RequestMetric)
produce x s = conclude x (try_produce x s)

unfoldable pub consume : Iteration → StompSession → Option (StompSession × RequestMetric)
consume x s = conclude x (try_consume x s)

pub data StompMode : Type 0 where
  produces consumes : StompMode

-- The chaos engine draws the fault of an iteration, which is an argument.
pub record StompEngine : Type 0 where
  pub authority : Bytes
  pub destination : Bytes
  pub mode : StompMode
  pub ack : StompAck
  pub receipt : Bool
  pub payload : Bytes
  pub headers : Headers
  pub timeout_secs : ℕ

unfoldable pub new_session : StompEngine → StompSession
new_session e = record {
  destination = e.destination;
  ack = e.ack;
  receipt = e.receipt;
  payload = e.payload;
  headers = e.headers;
  stream = none;
  decoder = new_decoder;
  connected = false;
  subscribed = false;
  ever_connected = false;
  reconnected_this_iteration = false;
  subscribed_at = none;
  last_message_at = none;
  saw_first_message = false;
  receipt_seq = 0;
}

abbrev pub begun : StompSession → StompSession
begun s = record s { reconnected_this_iteration = false }

abbrev pub attempt : StompMode → Iteration → StompSession → Attempt StompSample
attempt produces x s = try_produce x s
attempt consumes x s = try_consume x s

-- `run_iteration`. Both modes conclude alike.
unfoldable pub run_iteration :
    StompMode → Iteration → StompSession → Option (StompSession × RequestMetric)
run_iteration mode x s = elim x.fault [
  | some connection_drop ↦ some (reset_session s, builder 0 (some connection_drop))
  | _ ↦ elim mode [ produces ↦ produce x (begun s) | consumes ↦ consume x (begun s) ]
]

-- `shutdown`: the `DISCONNECT` is written to an open connection.
unfoldable pub shutdown : StompSession → StompSession × Option Stream
shutdown s =
    let last : Option Stream = elim s.stream [
      | none ↦ none
      | some stream ↦
          if s.connected
          then some (write_to stream (encode (new_frame (ascii "DISCONNECT")))).1
          else some stream
    ] in
    (record s { stream = none; connected = false }, last)
