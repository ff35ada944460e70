-- ===== src/Stomp/Attempts.antt =====
-- The steps of an iteration of src/protocols/stomp.rs, by what they leave of a session.
use strobengine.Prelude.{◌≡◌, refl, Option, none, some, []}
use strobengine.Text.Utf8.{Bytes}
use strobengine.Metrics.Samples.{is_some}
use strobengine.Stomp.Frame.{Frame, encode}
use strobengine.Stomp.Decoder.{Decoder}
use strobengine.Stomp.Connection.{
  Stream, not_connected, waiting, succeeds, fails, write_to, Arm, read_loop,
}
use strobengine.Stomp.Session.{
  StompAck, auto, client, client_individual, StompSession, ack_frame, Attempt, ◌then_do◌,
  written_to, read_by, write_bytes, read_frames, receipt_arm,
}
use strobengine.Stomp.Engine.{await_receipt, acknowledge}

-- A success leaves a session with `Q`, and an error one with `R`.
abbrev pub Leaves :
    {A : Type 0} → (A → StompSession → Type 0) → (StompSession → Type 0) → Attempt A → Type 0
Leaves Q R (succeeds a, s) = Q a s
Leaves Q R (fails e, s) = R s

pub then_do-Leaves :
    {A B : Type 0} (Q : A → StompSession → Type 0) (Q' : B → StompSession → Type 0)
    (R : StompSession → Type 0) (m : Attempt A) (f : A → StompSession → Attempt B)
    → Leaves Q R m
    → ((a : A) (s : StompSession) → Q a s → Leaves Q' R (f a s))
    → Leaves Q' R (m then_do f)
then_do-Leaves Q Q' R (succeeds a, s) f q k = k a s q
then_do-Leaves Q Q' R (fails e, s) f r k = r

pub Leaves-map :
    {A : Type 0} (Q Q' : A → StompSession → Type 0) (R R' : StompSession → Type 0) (m : Attempt A)
    → ((a : A) (s : StompSession) → Q a s → Q' a s)
    → ((s : StompSession) → R s → R' s)
    → Leaves Q R m
    → Leaves Q' R' m
Leaves-map Q Q' R R' (succeeds a, s) f g q = f a s q
Leaves-map Q Q' R R' (fails e, s) f g r = g s r

-- The second session is the first but for what its socket has read and written.
abbrev pub Touches : StompSession → StompSession → Type 0
Touches s t =
    (o : Option Stream) × (d : Decoder) × (is_some o ≡ is_some s.stream)
    × (t ≡ record s { stream = o; decoder = d })

abbrev pub Uses : {A : Type 0} → StompSession → Attempt A → Type 0
Uses s m = Leaves (λ _. Touches s) (Touches s) m

pub untouched : (s : StompSession) → Touches s s
untouched s = (s.stream, s.decoder, refl, refl)

both : {A : Type 0} (Q : StompSession → Type 0) (m : Attempt A) → Q m.1 → Leaves (λ _. Q) Q m
both Q (succeeds a, s) q = q
both Q (fails e, s) q = q

pub write_bytes-Uses : (bytes : Bytes) (s : StompSession) → Uses s (write_bytes bytes s)
unfolding write_bytes
write_bytes-Uses bytes s = written s.stream refl
  where
    written :
        (o : Option Stream)
        → s.stream ≡ o
        → Uses s (elim o [
          | none ↦ (fails not_connected, s)
          | some stream ↦ written_to s (write_to stream bytes)
        ])
    written none e = untouched s
    written (some stream) e =
        both (Touches s) (written_to s (write_to stream bytes))
          (some (write_to stream bytes).1, s.decoder, rw e refl, refl)

pub read_frames-Uses :
    {A : Type 0} (arm : Frame → Arm A) (s : StompSession) → Uses s (read_frames arm s)
unfolding read_frames
read_frames-Uses {A} arm s = looped s.stream refl
  where
    looped :
        (o : Option Stream)
        → s.stream ≡ o
        → Uses s (elim o as (λ _. Attempt A) [
          | none ↦ (
            (read_loop not_connected arm [] s.decoder).0,
            record s { decoder = (read_loop not_connected arm [] s.decoder).1.0 },
          )
          | some stream ↦ read_by s stream (read_loop waiting arm stream.reads s.decoder)
        ])
    looped none e =
        both (Touches s) _ (s.stream, (read_loop not_connected arm [] s.decoder).1.0, refl, refl)
    looped (some stream) e =
        both (Touches s) (read_by s stream (read_loop waiting arm stream.reads s.decoder)) (
          let back = (read_loop waiting arm stream.reads s.decoder).1 in
          (some (record stream { reads = back.1 }), back.0, rw e refl, refl))

pub await_receipt-Uses : (id : Option Bytes) (s : StompSession) → Uses s (await_receipt id s)
unfolding await_receipt
await_receipt-Uses none s = untouched s
await_receipt-Uses (some id) s = read_frames-Uses (receipt_arm id) s

pub acknowledge-Uses : (id : Option Bytes) (s : StompSession) → Uses s (acknowledge id s)
unfolding acknowledge
acknowledge-Uses none s = untouched s
acknowledge-Uses (some id) s = acknowledged s.ack
  where
    acknowledged :
        (a : StompAck)
        → Uses s (elim a [ auto ↦ (succeeds tt, s) | _ ↦ write_bytes (encode (ack_frame id)) s ])
    acknowledged auto = untouched s
    acknowledged client = write_bytes-Uses (encode (ack_frame id)) s
    acknowledged client_individual = write_bytes-Uses (encode (ack_frame id)) s
