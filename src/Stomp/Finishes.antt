-- ===== src/Stomp/Finishes.antt =====
-- The rounds that the loops of src/protocols/stomp.rs have are enough for the reads that are given.
use strobengine.Prelude.{
  ℕ, ◌≡◌, ap, ◌≢◌, inl, inr, Bool, true, false, List, [], ◌∷◌, Option, none, some, if◌then◌else◌,
  Bool-cases,
}
use strobengine.Text.Utf8.{Bytes}
use strobengine.Text.Compare.{same}
use strobengine.Chaos.{ascii}
use strobengine.Stomp.Frame.{Frame, header, encode}
use strobengine.Stomp.Connection.{
  after_write, Stream, SocketWrite, taken, refused, late, unfinished, not_connected, rejected,
  waiting, succeeds, fails, Arm, leave, continue, read_loop, write_to,
}
use strobengine.Stomp.Rounds.{IsFair, read_loop-ne-unfinished}
use strobengine.Stomp.Session.{
  StompSession, StompAck, auto, client, client_individual, Dial, dialled, dial_elapsed,
  dial_refused, Attempt, ◌then_do◌, greeted, ack_frame, written_to, read_by, write_bytes,
  read_frames, connect_arm, connect_frame, connect, ensure_session_connected, ensure_subscribed,
  receipt_arm, message_arm, error_arm, matches,
}
use strobengine.Stomp.Engine.{
  Iteration, send_frame, next_seq, receipt_id, note_message, StompMode, produces, consumes, attempt,
  try_produce, try_consume, await_receipt, acknowledge,
}

-- Not the end of a loop whose rounds ran out.
abbrev Ends : {A : Type 0} → Attempt A → Type 0
Ends m = m.0 ≢ fails unfinished

then_do-Ends :
    {A B : Type 0} (m : Attempt A) (f : A → StompSession → Attempt B)
    → Ends m
    → ((a : A) (s : StompSession) → Ends (f a s))
    → Ends (m then_do f)
then_do-Ends (succeeds a, s) f h k = k a s
then_do-Ends (fails e, s) f h k =
    λ x. let same_error : e ≡ unfinished = cc in h (ap fails same_error)

write_to-Ends : (s : Stream) (bytes : Bytes) → (write_to s bytes).0 ≢ fails unfinished
unfolding write_to
write_to-Ends s bytes = by_writes s.writes
  where
    by_writes : (w : List SocketWrite) → (after_write w s bytes).0 ≢ fails unfinished
    by_writes [] = λ x. cc
    by_writes (taken ∷ rest) = λ x. cc
    by_writes (refused ∷ rest) = λ x. cc
    by_writes (late ∷ rest) = λ x. cc

write_bytes-Ends : (bytes : Bytes) (s : StompSession) → Ends (write_bytes bytes s)
unfolding write_bytes
write_bytes-Ends bytes s = by_stream s.stream
  where
    by_stream :
        (o : Option Stream)
        → Ends (elim o as (λ _. Attempt Unit) [
          | none ↦ (fails not_connected, s)
          | some stream ↦ written_to s (write_to stream bytes)
        ])
    by_stream none = λ x. cc
    by_stream (some stream) = write_to-Ends stream bytes

read_frames-Ends :
    {A : Type 0} (arm : Frame → Arm A) (s : StompSession)
    → ((f : Frame) → IsFair (arm f))
    → Ends (read_frames arm s)
unfolding read_frames
read_frames-Ends {A} arm s k = by_stream s.stream
  where
    by_stream :
        (o : Option Stream)
        → Ends (elim o as (λ _. Attempt A) [
          | none ↦ (
            (read_loop not_connected arm [] s.decoder).0,
            record s { decoder = (read_loop not_connected arm [] s.decoder).1.0 },
          )
          | some stream ↦ read_by s stream (read_loop waiting arm stream.reads s.decoder)
        ])
    by_stream none = read_loop-ne-unfinished not_connected arm [] s.decoder (λ x. cc) k
    by_stream (some stream) = read_loop-ne-unfinished waiting arm stream.reads s.decoder (λ x. cc) k

-- `if`s of arms.
choice-IsFair :
    {A : Type 0} (c : Bool) (a b : Arm A) → IsFair a → IsFair b → IsFair (if c then a else b)
choice-IsFair true a b h k = h
choice-IsFair false a b h k = k

connect_arm-IsFair : (f : Frame) → IsFair (connect_arm f)
unfolding connect_arm
connect_arm-IsFair f =
    choice-IsFair (same f.command (ascii "CONNECTED")) (leave (succeeds tt)) _ (λ x. cc)
      (choice-IsFair (same f.command (ascii "ERROR")) (error_arm f) continue (λ x. cc) tt)

receipt_arm-IsFair : (id : Bytes) (f : Frame) → IsFair (receipt_arm id f)
unfolding receipt_arm
receipt_arm-IsFair id f =
    choice-IsFair (same f.command (ascii "RECEIPT")) _ _
      (choice-IsFair (matches (header f (ascii "receipt-id")) id) (leave (succeeds tt)) continue
        (λ x. cc) tt)
      (choice-IsFair (same f.command (ascii "ERROR")) (error_arm f) continue (λ x. cc) tt)

message_arm-IsFair : (f : Frame) → IsFair (message_arm f)
unfolding message_arm
message_arm-IsFair f =
    choice-IsFair (same f.command (ascii "MESSAGE")) _ _ (λ x. cc)
      (choice-IsFair (same f.command (ascii "ERROR")) (error_arm f) continue (λ x. cc) tt)

greeted-Ends : (m : Attempt Unit) → Ends m → Ends (greeted m)
greeted-Ends (succeeds a, s) h = λ x. cc
greeted-Ends (fails (rejected r), s) h = λ x. cc
greeted-Ends (fails e, s) h = h

ensure_session_connected-Ends :
    (dial : Dial) (s : StompSession) → Ends (ensure_session_connected dial s)
unfolding ensure_session_connected connect
ensure_session_connected-Ends dial s = by_flag s.connected dial
  where
    by_flag : (b : Bool) (d : Dial) → Ends (if b then (succeeds tt, s) else connect d s)
    by_flag true d = λ x. cc
    by_flag false dial_elapsed = λ x. cc
    by_flag false dial_refused = λ x. cc
    by_flag false (dialled stream) =
        then_do-Ends (write_bytes (encode connect_frame) _) _
          (write_bytes-Ends (encode connect_frame) _)
          (λ _ t.
            greeted-Ends (read_frames connect_arm t)
              (read_frames-Ends connect_arm t connect_arm-IsFair))

ensure_subscribed-Ends : (now : ℕ) (s : StompSession) → Ends (ensure_subscribed now s)
unfolding ensure_subscribed
ensure_subscribed-Ends now s = elim (Bool-cases s.subscribed) [
  | inl t ↦ rw (t, ensure_subscribed) (λ x. cc)
  | inr t ↦
      rw (t, ensure_subscribed)
        (then_do-Ends (write_bytes _ _) _ (write_bytes-Ends _ _) (λ _ _ x. cc))
]

await_receipt-Ends : (id : Option Bytes) (s : StompSession) → Ends (await_receipt id s)
unfolding await_receipt
await_receipt-Ends none s = λ x. cc
await_receipt-Ends (some id) s = read_frames-Ends (receipt_arm id) s (receipt_arm-IsFair id)

acknowledge-Ends : (id : Option Bytes) (s : StompSession) → Ends (acknowledge id s)
unfolding acknowledge
acknowledge-Ends none s = λ x. cc
acknowledge-Ends (some id) s = acknowledged s.ack
  where
    acknowledged :
        (a : StompAck)
        → Ends (elim a [ auto ↦ (succeeds tt, s) | _ ↦ write_bytes (encode (ack_frame id)) s ])
    acknowledged auto = λ x. cc
    acknowledged client = write_bytes-Ends (encode (ack_frame id)) s
    acknowledged client_individual = write_bytes-Ends (encode (ack_frame id)) s

-- In either mode no loop over the frames of the broker runs out of rounds: an iteration ends, or a
-- loop has used up the reads that are given and waits, or the decoder panics.
pub attempt-ne-unfinished :
    (mode : StompMode) (x : Iteration) (s : StompSession) → (attempt mode x s).0 ≢ fails unfinished
unfolding try_produce try_consume
attempt-ne-unfinished produces x s =
    then_do-Ends (ensure_session_connected x.dial s) _ (ensure_session_connected-Ends x.dial s)
      (λ _ live.
        then_do-Ends (write_bytes (encode (send_frame (next_seq live) x.fault)) (next_seq live)) _
          (write_bytes-Ends _ (next_seq live))
          (λ _ flushed.
            then_do-Ends (await_receipt (receipt_id (next_seq live)) flushed) _
              (await_receipt-Ends (receipt_id (next_seq live)) flushed) (λ _ _ e. cc)))
attempt-ne-unfinished consumes x s =
    then_do-Ends (ensure_session_connected x.dial s) _ (ensure_session_connected-Ends x.dial s)
      (λ _ live.
        then_do-Ends (ensure_subscribed x.subscribed_now live) _
          (ensure_subscribed-Ends x.subscribed_now live)
          (λ _ listening.
            then_do-Ends (read_frames message_arm listening) _
              (read_frames-Ends message_arm listening message_arm-IsFair)
              (λ message heard.
                then_do-Ends (acknowledge message.1 (note_message x.message_now heard)) _
                  (acknowledge-Ends message.1 (note_message x.message_now heard)) (λ _ _ e. cc))))
