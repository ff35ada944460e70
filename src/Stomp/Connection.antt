-- ===== src/Stomp/Connection.antt =====
-- The socket of a session of src/protocols/stomp.rs: what `read_frame` and `write_frame` do with
-- it, and the loops that read frames. What the broker sends, whether a write is taken, and what
-- elapses, are in the stream.
use strobengine.Prelude.{
  ℕ, zero, suc, ◌+◌, ◌*◌, List, [], ◌∷◌, ◌++◌, Option, ltb, if◌then◌else◌, length,
}
use strobengine.Text.Utf8.{Bytes}
use strobengine.Stomp.Escape.{CodecError}
use strobengine.Stomp.Frame.{Frame}
use strobengine.Stomp.Decoder.{
  Decoder, Decoded, incomplete, frame, error, panics, out_of_fuel, push, pending, unread,
  next_frame,
}

-- What a read of the socket gives: some bytes, none at its end, an error, or the timeout.
pub data SocketRead : Type 0 where
  received : Bytes → SocketRead
  broken elapsed : SocketRead

-- What a write and its flush give.
pub data SocketWrite : Type 0 where
  taken refused late : SocketWrite

-- An open socket: the reads to come, as far as they are given, the writes to come, after which the
-- timeout elapses, and what has been written.
pub record Stream : Type 0 where
  pub reads : List SocketRead
  pub writes : List SocketWrite
  pub written : Bytes

-- The messages of the errors, and three ways not to return one: `unwound` is a panic of the decoder,
-- which no caller catches; `waiting` a loop that has used up the reads that are given and wants more,
-- as it does for ever with a broker that goes on sending frames of no use; `unfinished` a loop whose
-- rounds ran out.
pub data Failure : Type 0 where
  connect_timed_out connect_failed not_connected write_timed_out write_failed : Failure
  protocol_error : CodecError → Failure
  too_large read_timed_out read_failed closed_by_broker : Failure
  rejected : Option Bytes → Failure
  unwound waiting unfinished : Failure

pub data Tried (A : Type 0) : Type 0 where
  succeeds : A → Tried A
  fails : Failure → Tried A

-- 16 MiB
abbrev pub max_frame_bytes : ℕ
max_frame_bytes = 16 * 1024 * 1024

-- One round of the loop of `read_frame` up to its read of the socket.
pub data Turn : Type 0 where
  yields : Frame → Decoder → Turn
  stops : Failure → Decoder → Turn
  wants : Decoder → Turn

abbrev pub turn_of : Decoded × Decoder → Turn
turn_of (frame f, d) = yields f d
turn_of (error e, d) = stops (protocol_error e) d
turn_of (panics, d) = stops unwound d
turn_of (out_of_fuel, d) = stops unfinished d
turn_of (incomplete, d) = if ltb max_frame_bytes (pending d) then stops too_large d else wants d

unfoldable pub turn : Decoder → Turn
turn d = turn_of (next_frame d)

-- How `read_frame` ends, with the decoder and the reads that are left.
pub record Incoming : Type 0 where
  pub result : Tried Frame
  pub decoder : Decoder
  pub reads : List SocketRead

abbrev pub incoming : Tried Frame → Decoder → List SocketRead → Incoming
incoming result decoder reads = record { result = result; decoder = decoder; reads = reads }

-- The loop of `read_frame`; `silent` is its result where no read is left: that it waits, or that
-- there is no stream.
unfoldable pub read_next : Failure → List SocketRead → Decoder → Incoming
read_next silent [] d = elim (turn d) [
  | yields f d' ↦ incoming (succeeds f) d' []
  | stops e d' ↦ incoming (fails e) d' []
  | wants d' ↦ incoming (fails silent) d' []
]
read_next silent (r ∷ rest) d = elim (turn d) [
  | yields f d' ↦ incoming (succeeds f) d' (r ∷ rest)
  | stops e d' ↦ incoming (fails e) d' (r ∷ rest)
  | wants d' ↦ elim r [
    | received [] ↦ incoming (fails closed_by_broker) d' rest
    | received (b ∷ bs) ↦ read_next silent rest (push d' (b ∷ bs))
    | broken ↦ incoming (fails read_failed) d' rest
    | elapsed ↦ incoming (fails read_timed_out) d' rest
  ]
]

abbrev pub after_write : List SocketWrite → Stream → Bytes → Tried Unit × Stream
after_write [] s bytes = (fails write_timed_out, s)
after_write (taken ∷ rest) s bytes =
    (succeeds tt, record s { writes = rest; written = s.written ++ bytes })
after_write (refused ∷ rest) s bytes = (fails write_failed, record s { writes = rest })
after_write (late ∷ rest) s bytes = (fails write_timed_out, record s { writes = rest })

-- `write_frame` on an open stream. A write that fails may have sent a part; the session that it
-- fails in never uses the stream again.
unfoldable pub write_to : Stream → Bytes → Tried Unit × Stream
write_to s bytes = after_write s.writes s bytes

-- The bytes that are buffered or still to be read.
unfoldable pub to_read : List SocketRead → ℕ
to_read [] = 0
to_read (received bytes ∷ rest) = length bytes + to_read rest
to_read (_ ∷ rest) = to_read rest

-- What an arm of a loop that matches on the command does.
pub data Arm (A : Type 0) : Type 0 where
  leave : Tried A → Arm A
  continue : Arm A

-- What a loop returns, with the decoder and the reads that are left.
abbrev pub Looped : Type 0 → Type 0
Looped A = Tried A × (Decoder × List SocketRead)

abbrev pub on_arm :
    {A : Type 0}
    → (List SocketRead → Decoder → Looped A)
    → Arm A
    → Decoder
    → List SocketRead
    → Looped A
on_arm again (leave result) d reads = (result, (d, reads))
on_arm again continue d reads = again reads d

module _ {A : Type 0} (silent : Failure) (arm : Frame → Arm A) where
  abbrev pub on_frame :
      (List SocketRead → Decoder → Looped A) → Tried Frame → Decoder → List SocketRead → Looped A
  on_frame again (fails e) d reads = (fails e, (d, reads))
  on_frame again (succeeds f) d reads = on_arm again (arm f) d reads

  -- A loop that reads frames until an arm leaves it, or as far as the reads go.
  unfoldable pub read_until : ℕ → List SocketRead → Decoder → Looped A
  read_until zero reads d = (fails unfinished, (d, reads))
  read_until (suc fuel) reads d =
      let next = read_next silent reads d in
      on_frame (λ reads' d'. read_until fuel reads' d') next.result next.decoder next.reads

  -- Each frame takes a byte, so that the rounds are enough.
  unfoldable pub read_loop : List SocketRead → Decoder → Looped A
  read_loop reads d = read_until (length (unread d) + to_read reads + 1) reads d
