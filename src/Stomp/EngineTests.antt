-- ===== src/Stomp/EngineTests.antt =====
-- Runs of the engine of src/protocols/stomp.rs, and its theorems at concrete brokers.
use strobengine.Prelude.{
  ℕ, ◌≡◌, refl, ◌-◌, ◌<◌, length, true, false, List, [], ◌∷◌, ◌++◌, none, some, arith, map, All,
}
use strobengine.Text.Utf8.{Bytes, is_utf8}
use strobengine.Text.Compare.{eq_ignore_ascii_case, same}
use strobengine.Text.Print.{decimal, decimal_digits}
use strobengine.Prelude.Words.{u64_mod}
use strobengine.Stomp.Escape.{encode_header}
use strobengine.Chaos.{ascii}
use strobengine.Stomp.Frame.{
  new as new_frame, set_in, set_header, encode, header_lines, header_line,
}
use strobengine.Stomp.Decoder.{frame, unread, next_frame, Decoder}
use strobengine.Stomp.Connection.{Stream, received, taken}
use strobengine.Stomp.Session.{StompSession, auto, dialled, input_payload}
use strobengine.Stomp.Engine.{
  Iteration, StompEngine, produces, new_session, send_frame, next_seq, try_produce,
}
use strobengine.Stomp.Reconnects.{
  serve, handshakes, reconnects_reported, StatusAgrees, status_connected, reconnects_handshakes,
}
use strobengine.Stomp.Sent.{written_by, produce_delivers}

abbrev queue : StompEngine
queue = record {
  authority = ascii "localhost:61613";
  destination = ascii "/queue/a";
  mode = produces;
  ack = auto;
  receipt = false;
  payload = ascii "hi";
  headers = [];
  timeout_secs = 5;
}

-- A broker that greets, then closes, with room for two writes.
abbrev greeting : Bytes
greeting = ascii "CONNECTED\nversion:1.2\n\n" ++ (0 ∷ [])

abbrev broker : Stream
broker = record { reads = received greeting ∷ []; writes = taken ∷ taken ∷ []; written = [] }

abbrev plain : Iteration
plain = record {
  fault = none;
  dial = dialled broker;
  start = 0;
  write_start = 1000;
  subscribed_now = 0;
  sent_now = 3000;
  message_now = 0;
  returned = 5000;
}

-- The third write is refused, so that the third iteration connects again.
abbrev plains : List Iteration
plains = plain ∷ plain ∷ plain ∷ []

status_connected_example : All StatusAgrees (serve produces (new_session queue) plains)
status_connected_example = status_connected queue produces plains

reconnects_handshakes_example :
    reconnects_reported (serve produces (new_session queue) plains)
    ≡ handshakes produces (new_session queue) plains - 1
reconnects_handshakes_example = reconnects_handshakes queue produces plains

abbrev live : StompSession
live = record (new_session queue) { connected = true; ever_connected = true; stream = some broker }

abbrev after_sent : Decoder
after_sent = record { buf = encode (send_frame (next_seq live) none) ++ ascii "SEND"; pos = 0 }

-- The statuses of those iterations.
abbrev statuses : List ℕ
statuses = map (λ p. (p.0).status_code) (serve produces (new_session queue) plains)

delivers_bytes : unread after_sent ≡ encode (send_frame (next_seq live) none) ++ ascii "SEND"
delivers_bytes = refl

after_sent_short : length (after_sent.buf) < u64_mod
unfolding new_session input_payload send_frame set_header set_in new_frame encode header_lines
    header_line encode_header eq_ignore_ascii_case decimal decimal_digits same
after_sent_short = omega arith

produce_delivers_example :
    (written_by (try_produce plain live).1
      ≡ some (broker.written ++ encode (send_frame (next_seq live) none)))
    × (d' : Decoder) × (next_frame after_sent ≡ (frame (send_frame (next_seq live) none), d'))
    × (unread d' ≡ ascii "SEND")
    × ((send_frame (next_seq live) none).body ≡ input_payload live none)
unfolding is_utf8 new_session input_payload
produce_delivers_example =
    produce_delivers plain live broker (taken ∷ []) after_sent (ascii "SEND") (refl, tt) refl refl
      refl (omega arith) refl after_sent_short
