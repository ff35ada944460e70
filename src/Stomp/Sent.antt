-- ===== src/Stomp/Sent.antt =====
-- A published payload at the broker: what an iteration of src/protocols/stomp.rs that produces
-- writes to its socket, and what the decoder of src/protocols/stomp_codec.rs reads of it.
use strobengine.Prelude.{
  ℕ, ◌<◌, ◌≡◌, refl, sym, ◌∙◌, ap, Bool, true, false, List, [], ◌∷◌, ◌++◌, Option, none, some,
  arith, length, All, if◌then◌else◌,
}
use strobengine.Prelude.Words.{u64_mod, add64}
use strobengine.Text.Utf8.{Bytes, is_utf8, is_utf8-ascii}
use strobengine.Text.Print.{decimal, decimal-IsGraphic}
use strobengine.Chaos.{ascii, ChaosFault}
use strobengine.Stomp.Frame.{Frame, set_in, set_header, encode}
use strobengine.Stomp.Frame.{new as new_frame}
use strobengine.Stomp.Decoder.{Decoder, frame, unread, next_frame}
use strobengine.Stomp.Lines.{IsUtf8Pair}
use strobengine.Stomp.RoundTrip.{next_frame-encode}
use strobengine.Stomp.Connection.{
  Stream, SocketWrite, taken, not_connected, waiting, succeeds, fails, after_write, write_to,
  read_loop, Arm,
}
use strobengine.Stomp.Session.{
  StompSession, Attempt, ◌then_do◌, input_payload, written_to, read_by, write_bytes, read_frames,
  connect, ensure_session_connected, receipt_arm,
}
use strobengine.Stomp.Engine.{
  Iteration, send_frame, with_headers, with_chaos, receipt_id, next_seq, await_receipt, try_produce,
}
use strobengine.Stomp.Delivered.{
  IsSend, IsTextOption, with_headers-All, with_headers-command, with_chaos-IsSend, ascii_text,
  finished, finished-length, finished-IsSend, send-IsSendable,
}

receipt_id-text : (s : StompSession) → IsTextOption (receipt_id s)
receipt_id-text s = by_flag s.receipt
  where
    by_flag :
        (b : Bool) → IsTextOption (if b then some (ascii "r-" ++ decimal s.receipt_seq) else none)
    by_flag true =
        is_utf8-ascii (ascii "r-" ++ decimal s.receipt_seq)
          (omega arith, (omega arith, ascii_text _ (decimal-IsGraphic s.receipt_seq)))
    by_flag false = tt

-- The destination and the headers of a session are text, as `String`s are.
abbrev pub HasText : StompSession → Type 0
HasText s = (is_utf8 s.destination ≡ true) × All IsUtf8Pair s.headers

-- The frame before its size is set.
abbrev unsized_frame : StompSession → Option ChaosFault → Frame
unsized_frame s fault =
    with_chaos
      (with_headers (set_header (new_frame (ascii "SEND")) (ascii "destination") s.destination)
        s.headers)
      fault

unsized_frame-IsSend :
    (s : StompSession) (fault : Option ChaosFault) → HasText s → IsSend (unsized_frame s fault)
unfolding set_header set_in is_utf8 new_frame
unsized_frame-IsSend s fault (d, h) =
    let start = set_header (new_frame (ascii "SEND")) (ascii "destination") s.destination in
    with_chaos-IsSend (with_headers start s.headers) fault
      (with_headers-command start s.headers, with_headers-All start s.headers h ((refl, d), tt))

-- A broker whose decoder has an encoded `SEND` frame before it reads the frame with the iteration's
-- payload, and has the rest left.
pub next_frame-send_frame :
    (s : StompSession) (fault : Option ChaosFault) (d : Decoder) (rest : Bytes)
    → HasText s
    → length (input_payload s fault) < u64_mod
    → unread d ≡ encode (send_frame s fault) ++ rest
    → length d.buf < u64_mod
    → (d' : Decoder) × (next_frame d ≡ (frame (send_frame s fault), d'))
      × (unread d' ≡ rest)
      × ((send_frame s fault).body ≡ input_payload s fault)
unfolding send_frame finished
next_frame-send_frame s fault d rest t b e c =
    let marked = unsized_frame s fault in
    let done =
      finished-IsSend marked (input_payload s fault) (receipt_id s) (receipt_id-text s)
        (unsized_frame-IsSend s fault t) in
    let len = finished-length marked (input_payload s fault) (receipt_id s) b in
    let (d', p, q) = next_frame-encode d (send_frame s fault) rest e c (
      send-IsSendable (send_frame s fault) done.0
        (len ∙ ap (λ (x : Bytes). some (length x)) (sym done.1))) in
    (d', p, q, done.1)

-- What has been written to the socket of a session.
abbrev pub written_by : StompSession → Option Bytes
written_by s = elim s.stream [ none ↦ none | some stream ↦ some stream.written ]

read_frames-written :
    {A : Type 0} (arm : Frame → Arm A) (s : StompSession)
    → written_by (read_frames arm s).1 ≡ written_by s
unfolding read_frames
read_frames-written {A} arm s = by_stream s.stream
  where
    by_stream :
        (o : Option Stream)
        → written_by
            (elim o as (λ _. Attempt A) [
              | none ↦ (
                (read_loop not_connected arm [] s.decoder).0,
                record s { decoder = (read_loop not_connected arm [] s.decoder).1.0; stream = o },
              )
              | some stream ↦ read_by s stream (read_loop waiting arm stream.reads s.decoder)
            ]).1
          ≡ elim o [ none ↦ none | some stream ↦ some stream.written ]
    by_stream none = refl
    by_stream (some stream) = refl

await_receipt-written :
    (id : Option Bytes) (s : StompSession) → written_by (await_receipt id s).1 ≡ written_by s
unfolding await_receipt
await_receipt-written none s = refl
await_receipt-written (some id) s = read_frames-written (receipt_arm id) s

-- The counter is all that `next_seq` changes.
next_seq_elim :
    (P : StompSession → Type 0) (s : StompSession)
    → ((n : ℕ) → P (record s { receipt_seq = n }))
    → P (next_seq s)
next_seq_elim P s h = by_flag s.receipt
  where
    by_flag : (b : Bool) → P (if b then record s { receipt_seq = add64 s.receipt_seq 1 } else s)
    by_flag true = h (add64 s.receipt_seq 1)
    by_flag false = h s.receipt_seq

then_do-written :
    {A B : Type 0} (w : Option Bytes) (m : Attempt A) (f : A → StompSession → Attempt B)
    → written_by m.1 ≡ w
    → ((a : A) (s : StompSession) → written_by s ≡ w → written_by (f a s).1 ≡ w)
    → written_by (m then_do f).1 ≡ w
then_do-written w (succeeds a, s) f h k = k a s h
then_do-written w (fails e, s) f h k = h

write_bytes-written :
    (bytes : Bytes) (s : StompSession) (stream : Stream) (writes : List SocketWrite)
    → s.stream ≡ some stream
    → stream.writes ≡ taken ∷ writes
    → written_by (write_bytes bytes s).1 ≡ some (stream.written ++ bytes)
unfolding write_bytes write_to
write_bytes-written bytes s stream writes e w =
    ap
      (λ o.
        written_by
          (elim o as (λ _. Attempt Unit) [
            | none ↦ (fails not_connected, s)
            | some opened ↦ written_to s (after_write opened.writes opened bytes)
          ]).1)
      e
    ∙ ap (λ ws. written_by (written_to s (after_write ws stream bytes)).1) w

then_do-ensured :
    {A B : Type 0} (w : Option Bytes) (m : Attempt A) (f : A → StompSession → Attempt B) (a : A)
    (s : StompSession)
    → m ≡ (succeeds a, s)
    → written_by (f a s).1 ≡ w
    → written_by (m then_do f).1 ≡ w
then_do-ensured w m f a s e h = rw e h

ensure_session_connected-live :
    (x : Iteration) (s : StompSession)
    → s.connected ≡ true
    → ensure_session_connected x.dial s ≡ (succeeds tt, s)
unfolding ensure_session_connected
ensure_session_connected-live x s c = ap (λ b. if b then (succeeds tt, s) else connect x.dial s) c

try_produce-written :
    (x : Iteration) (s : StompSession) (stream : Stream) (writes : List SocketWrite)
    → s.connected ≡ true
    → s.stream ≡ some stream
    → stream.writes ≡ taken ∷ writes
    → written_by (try_produce x s).1
      ≡ some (stream.written ++ encode (send_frame (next_seq s) x.fault))
unfolding try_produce
try_produce-written x s stream writes c o w =
    let counted = next_seq s in
    let sent = encode (send_frame counted x.fault) in
    let all = some (stream.written ++ sent) in
    let same_stream : counted.stream ≡ some stream =
      next_seq_elim (λ t. t.stream ≡ some stream) s (λ n. o) in
    then_do-ensured all (ensure_session_connected x.dial s) _ tt s
      (ensure_session_connected-live x s c)
      (then_do-written all (write_bytes sent counted) _
        (write_bytes-written sent counted stream writes same_stream w)
        (λ _ u h.
          then_do-written all (await_receipt (receipt_id counted) u) _
            (await_receipt-written (receipt_id counted) u ∙ h) (λ _ v k. k)))

-- An iteration of a connected session that produces writes one frame, where the socket takes it,
-- and a broker whose decoder has that frame next reads it, with the iteration's payload as its
-- body, and has left what follows it. The texts are UTF-8, and the lengths below 2 ^ 64.
pub produce_delivers :
    (x : Iteration) (s : StompSession) (stream : Stream) (writes : List SocketWrite) (d : Decoder)
    (rest : Bytes)
    → HasText s
    → s.connected ≡ true
    → s.stream ≡ some stream
    → stream.writes ≡ taken ∷ writes
    → length (input_payload s x.fault) < u64_mod
    → unread d ≡ encode (send_frame (next_seq s) x.fault) ++ rest
    → length d.buf < u64_mod
    → (written_by (try_produce x s).1
        ≡ some (stream.written ++ encode (send_frame (next_seq s) x.fault)))
      × (d' : Decoder) × (next_frame d ≡ (frame (send_frame (next_seq s) x.fault), d'))
      × (unread d' ≡ rest)
      × ((send_frame (next_seq s) x.fault).body ≡ input_payload s x.fault)
unfolding input_payload
produce_delivers x s stream writes d rest t c o w b e l =
    let same_payload : input_payload (next_seq s) x.fault ≡ input_payload s x.fault =
      next_seq_elim (λ u. input_payload u x.fault ≡ input_payload s x.fault) s (λ n. refl) in
    let (d', p, q, r) =
      next_frame-send_frame (next_seq s) x.fault d rest (next_seq_elim HasText s (λ n. t))
        (rw same_payload b) e l in
    (try_produce-written x s stream writes c o w, d', p, q, r ∙ same_payload)
