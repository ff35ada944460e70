-- ===== src/Stomp/Session.antt =====
-- `StompSession` of src/protocols/stomp.rs: connecting, subscribing, publishing and consuming. What
-- a connect gives, the drawn fault and the instants, in nanoseconds, are arguments.
use strobengine.Prelude.{
  ℕ, ◌+◌, ◌%◌, ◌||◌, Bool, true, false, List, [], ◌∷◌, Option, none, some, if◌then◌else◌, length,
}
use strobengine.Text.Utf8.{Bytes}
use strobengine.Text.Compare.{same}
use strobengine.Chaos.{ascii, ChaosFault, corrupted_payload}
use strobengine.Stomp.Frame.{Frame, new as new_frame, Headers, header, set_header, encode}
use strobengine.Stomp.Decoder.{Decoder, new as new_decoder}
use strobengine.Stomp.Connection.{
  SocketRead, Stream, connect_timed_out, connect_failed, not_connected, rejected, waiting, Tried,
  succeeds, fails, write_to, Arm, leave, continue, read_loop,
}

pub data StompAck : Type 0 where
  auto client client_individual : StompAck

unfoldable pub as_str : StompAck → Bytes
as_str auto = ascii "auto"
as_str client = ascii "client"
as_str client_individual = ascii "client-individual"

-- The authority and the timeout are in what a connect gives: a stream says what elapses.
pub record StompSession : Type 0 where
  pub destination : Bytes
  pub ack : StompAck
  pub receipt : Bool
  pub payload : Bytes
  pub headers : Headers
  pub stream : Option Stream
  pub decoder : Decoder
  pub connected : Bool
  pub subscribed : Bool
  pub ever_connected : Bool
  pub reconnected_this_iteration : Bool
  pub subscribed_at : Option ℕ
  pub last_message_at : Option ℕ
  pub saw_first_message : Bool
  pub receipt_seq : ℕ

unfoldable pub ack_frame : Bytes → Frame
ack_frame id = set_header (new_frame (ascii "ACK")) (ascii "id") id

unfoldable pub reset_session : StompSession → StompSession
reset_session s = record s {
  stream = none;
  decoder = new_decoder;
  connected = false;
  subscribed = false;
  subscribed_at = none;
  last_message_at = none;
  saw_first_message = false;
}

-- `TcpStream::connect` under the timeout
pub data Dial : Type 0 where
  dialled : Stream → Dial
  dial_elapsed dial_refused : Dial

-- A result and the session that it leaves.
abbrev pub Attempt : Type 0 → Type 0
Attempt A = Tried A × StompSession

infixl 5 ◌then_do◌
abbrev pub ◌then_do◌ : {A B : Type 0} → Attempt A → (A → StompSession → Attempt B) → Attempt B
(succeeds a, s) then_do f = f a s
(fails e, s) then_do f = (fails e, s)

abbrev pub written_to : StompSession → Tried Unit × Stream → Attempt Unit
written_to s (result, stream) = (result, record s { stream = some stream })

unfoldable pub write_bytes : Bytes → StompSession → Attempt Unit
write_bytes bytes s = elim s.stream [
  | none ↦ (fails not_connected, s)
  | some stream ↦ written_to s (write_to stream bytes)
]

abbrev pub read_by :
    {A : Type 0} → StompSession → Stream → Tried A × (Decoder × List SocketRead) → Attempt A
read_by s stream (result, (decoder, reads)) =
    (result, record s { stream = some (record stream { reads = reads }); decoder = decoder })

-- A loop over `read_frame`; without a stream it sees what is buffered.
unfoldable pub read_frames : {A : Type 0} → (Frame → Arm A) → StompSession → Attempt A
read_frames arm s = elim s.stream [
  | none ↦
      let (result, (decoder, reads)) = read_loop not_connected arm [] s.decoder in
      (result, record s { decoder = decoder })
  | some stream ↦ read_by s stream (read_loop waiting arm stream.reads s.decoder)
]

-- The arm for an `ERROR`, whose message or its absence is the error.
abbrev pub error_arm : {A : Type 0} → Frame → Arm A
error_arm f = leave (fails (rejected (header f (ascii "message"))))

unfoldable pub connect_arm : Frame → Arm Unit
connect_arm f =
    if same f.command (ascii "CONNECTED")
    then leave (succeeds tt)
    else if same f.command (ascii "ERROR")
    then error_arm f
    else continue

unfoldable pub connect_frame : Frame
connect_frame =
    set_header
      (set_header (set_header (new_frame (ascii "CONNECT")) (ascii "accept-version") (ascii "1.2"))
        (ascii "host") (ascii "/"))
      (ascii "heart-beat") (ascii "0,0")

abbrev pub greeted : Attempt Unit → Attempt Unit
greeted (succeeds a, s) = (
  succeeds a,
  record s {
    reconnected_this_iteration = s.ever_connected || s.reconnected_this_iteration;
    ever_connected = true;
    connected = true;
  },
)
greeted (fails (rejected m), s) = (fails (rejected m), reset_session s)
greeted (fails e, s) = (fails e, s)

unfoldable pub connect : Dial → StompSession → Attempt Unit
connect dial_elapsed s = (fails connect_timed_out, s)
connect dial_refused s = (fails connect_failed, s)
connect (dialled stream) s =
    write_bytes (encode connect_frame) (record s { stream = some stream; decoder = new_decoder })
    then_do (λ _ s'. greeted (read_frames connect_arm s'))

unfoldable pub ensure_session_connected : Dial → StompSession → Attempt Unit
ensure_session_connected dial s = if s.connected then (succeeds tt, s) else connect dial s

unfoldable pub subscribe_frame : StompSession → Frame
subscribe_frame s =
    set_header
      (set_header (set_header (new_frame (ascii "SUBSCRIBE")) (ascii "id") (ascii "sub-0"))
        (ascii "destination") s.destination)
      (ascii "ack") (as_str s.ack)

unfoldable pub ensure_subscribed : ℕ → StompSession → Attempt Unit
ensure_subscribed now s =
    if s.subscribed
    then (succeeds tt, s)
    else (write_bytes (encode (subscribe_frame s)) s then_do (λ _ s'. (
      succeeds tt,
      record s' {
        subscribed = true;
        subscribed_at = some now;
        last_message_at = none;
        saw_first_message = false;
      },
    )))

abbrev pub matches : Option Bytes → Bytes → Bool
matches none id = false
matches (some v) id = same v id

unfoldable pub receipt_arm : Bytes → Frame → Arm Unit
receipt_arm id f =
    if same f.command (ascii "RECEIPT")
    then (if matches (header f (ascii "receipt-id")) id then leave (succeeds tt) else continue)
    else if same f.command (ascii "ERROR")
    then error_arm f
    else continue

-- `a.or_else(|| b)`
abbrev or_else : Option Bytes → Option Bytes → Option Bytes
or_else (some a) b = some a
or_else none b = b

unfoldable pub message_arm : Frame → Arm (ℕ × Option Bytes)
message_arm f =
    if same f.command (ascii "MESSAGE")
    then leave
        (succeeds (length f.body, or_else (header f (ascii "ack")) (header f (ascii "message-id"))))
    else if same f.command (ascii "ERROR")
    then error_arm f
    else continue

abbrev corrupt_first : Bytes → Bytes
corrupt_first [] = []
corrupt_first (b ∷ bs) = (b + 1) % 256 ∷ bs

unfoldable pub input_payload : StompSession → Option ChaosFault → Bytes
input_payload s (some corrupted_payload) = corrupt_first s.payload
input_payload s _ = s.payload
