-- ===== src/Stomp/Rounds.antt =====
-- The loops over `read_frame` of src/protocols/stomp.rs end: each frame takes bytes that the broker
-- has sent.
use strobengine.Prelude.{
  ℕ, zero, suc, ◌+◌, ◌≤◌, ◌<◌, refl, ◌≢◌, Bool, true, false, List, [], ◌∷◌, ◌++◌, arith, ltb,
  length, length-drop, length-append, if◌then◌else◌,
}
use strobengine.Text.Utf8.{Bytes}
use strobengine.Stomp.Frame.{Frame}
use strobengine.Stomp.Decoder.{
  Decoder, Decoded, incomplete, frame, error, panics, out_of_fuel, push, pending, unread,
  next_frame,
}
use strobengine.Stomp.Progress.{next_frame-ne-out_of_fuel}
use strobengine.Stomp.Consumes.{Shrinks, next_frame-Shrinks}
use strobengine.Stomp.Connection.{
  SocketRead, received, broken, elapsed, Failure, unfinished, read_timed_out, Tried, succeeds,
  fails, Turn, yields, stops, wants, turn_of, turn, Incoming, incoming, read_next, to_read, Arm,
  leave, continue, read_until, read_loop, Looped, on_arm, on_frame, max_frame_bytes,
  closed_by_broker, read_failed, too_large,
}

abbrev left : Decoder → ℕ
left d = length (unread d)

abbrev Turns : Decoder → Turn → Type 0
Turns d (yields f d') = left d' < left d
Turns d (stops e d') = e ≢ unfinished
Turns d (wants d') = left d' ≤ left d

turn_of-Turns :
    (d : Decoder) (r : Decoded × Decoder)
    → Shrinks (left d) r
    → r.0 ≢ out_of_fuel
    → Turns d (turn_of r)
turn_of-Turns d (frame f, d') s h = s
turn_of-Turns d (error e, d') s h = λ x. cc
turn_of-Turns d (panics, d') s h = λ x. cc
turn_of-Turns d (out_of_fuel, d') s h = elim (h refl) [ ]
turn_of-Turns d (incomplete, d') s h = by_size (ltb max_frame_bytes (pending d'))
  where
    by_size : (b : Bool) → Turns d (if b then stops too_large d' else wants d')
    by_size true = λ x. cc
    by_size false = s

turn-Turns : (d : Decoder) → Turns d (turn d)
unfolding turn
turn-Turns d = turn_of-Turns d (next_frame d) (next_frame-Shrinks d) (next_frame-ne-out_of_fuel d)

left-push : (d : Decoder) (bytes : Bytes) → left (push d bytes) ≤ left d + length bytes
unfolding push
left-push d bytes =
    omega (
      arith,
      length-drop d.pos d.buf,
      length-drop d.pos (d.buf ++ bytes),
      length-append d.buf bytes,
    )

-- A frame leaves fewer than `n` bytes, and an error is none of the rounds.
abbrev LeavesFewer : ℕ → Decoder → List SocketRead → Tried Frame → Type 0
LeavesFewer n d reads (succeeds f) = left d + to_read reads < n
LeavesFewer n d reads (fails e) = e ≢ unfinished

abbrev Advances : ℕ → Incoming → Type 0
Advances n i = LeavesFewer n i.decoder i.reads i.result

weaken_fewer :
    (m n : ℕ) (d : Decoder) (reads : List SocketRead) (r : Tried Frame)
    → m ≤ n
    → LeavesFewer m d reads r
    → LeavesFewer n d reads r
weaken_fewer m n d reads (succeeds f) h a = omega (arith, h, a)
weaken_fewer m n d reads (fails e) h a = a

weaken_bound : (m n : ℕ) (i : Incoming) → m ≤ n → Advances m i → Advances n i
weaken_bound m n i h a = weaken_fewer m n i.decoder i.reads i.result h a

read_next-Advances :
    (silent : Failure) (reads : List SocketRead) (d : Decoder)
    → silent ≢ unfinished
    → Advances (left d + to_read reads) (read_next silent reads d)
unfolding read_next to_read
read_next-Advances silent [] d h = by_turn (turn d) (turn-Turns d)
  where
    by_turn :
        (t : Turn)
        → Turns d t
        → Advances (left d + 0) (elim t [
          | yields f d' ↦ incoming (succeeds f) d' []
          | stops e d' ↦ incoming (fails e) d' []
          | wants d' ↦ incoming (fails silent) d' []
        ])
    by_turn (yields f d') k = omega (arith, k)
    by_turn (stops e d') k = k
    by_turn (wants d') k = h
read_next-Advances silent (r ∷ rest) d h =
    by_turn (turn d) (turn-Turns d) (λ d'. read_next-Advances silent rest d' h)
  where
    by_turn :
        (t : Turn)
        → Turns d t
        → ((d' : Decoder) → Advances (left d' + to_read rest) (read_next silent rest d'))
        → Advances (left d + to_read (r ∷ rest)) (elim t [
          | yields f d' ↦ incoming (succeeds f) d' (r ∷ rest)
          | stops e d' ↦ incoming (fails e) d' (r ∷ rest)
          | wants d' ↦ elim r [
            | received [] ↦ incoming (fails closed_by_broker) d' rest
            | received (b ∷ bs) ↦ read_next silent rest (push d' (b ∷ bs))
            | broken ↦ incoming (fails read_failed) d' rest
            | elapsed ↦ incoming (fails read_timed_out) d' rest
          ]
        ])
    by_turn (yields f d') k rec = omega (arith, k)
    by_turn (stops e d') k rec = k
    by_turn (wants d') k rec = by_read r
      where
        by_read :
            (r' : SocketRead)
            → Advances (left d + to_read (r' ∷ rest)) (elim r' [
              | received [] ↦ incoming (fails closed_by_broker) d' rest
              | received (b ∷ bs) ↦ read_next silent rest (push d' (b ∷ bs))
              | broken ↦ incoming (fails read_failed) d' rest
              | elapsed ↦ incoming (fails read_timed_out) d' rest
            ])
        by_read (received []) = λ x. cc
        by_read (received (b ∷ bs)) =
            weaken_bound _ _ (read_next silent rest (push d' (b ∷ bs)))
              (omega (arith, k, left-push d' (b ∷ bs))) (rec (push d' (b ∷ bs)))
        by_read broken = λ x. cc
        by_read elapsed = λ x. cc

-- An arm does not end with the error that stands for the rounds.
abbrev pub IsFair : {A : Type 0} → Arm A → Type 0
IsFair (leave result) = result ≢ fails unfinished
IsFair continue = Unit

module _ {A : Type 0} (silent : Failure) (arm : Frame → Arm A) where
  on_arm-ne-unfinished :
      (again : List SocketRead → Decoder → Looped A) (a : Arm A) (d : Decoder)
      (reads : List SocketRead)
      → IsFair a
      → (again reads d).0 ≢ fails unfinished
      → (on_arm again a d reads).0 ≢ fails unfinished
  on_arm-ne-unfinished again (leave result) d reads k h = k
  on_arm-ne-unfinished again continue d reads k h = h

  on_frame-ne-unfinished :
      (n : ℕ) (again : List SocketRead → Decoder → Looped A) (r : Tried Frame) (d : Decoder)
      (reads : List SocketRead)
      → ((f : Frame) → IsFair (arm f))
      → LeavesFewer n d reads r
      → (left d + to_read reads < n → (again reads d).0 ≢ fails unfinished)
      → (on_frame silent arm again r d reads).0 ≢ fails unfinished
  on_frame-ne-unfinished n again (succeeds f) d reads k a h =
      on_arm-ne-unfinished again (arm f) d reads (k f) (h a)
  on_frame-ne-unfinished n again (fails e) d reads k a h = λ x. a cc

  read_until-ne-unfinished :
      (fuel : ℕ) (reads : List SocketRead) (d : Decoder)
      → silent ≢ unfinished
      → ((f : Frame) → IsFair (arm f))
      → left d + to_read reads < fuel
      → (read_until silent arm fuel reads d).0 ≢ fails unfinished
  unfolding read_until
  read_until-ne-unfinished zero reads d h k b = elim b [ ]
  read_until-ne-unfinished (suc fuel) reads d h k b =
      let next = read_next silent reads d in
      on_frame-ne-unfinished (left d + to_read reads) _ next.result next.decoder next.reads k
        (read_next-Advances silent reads d h)
        (λ lt. read_until-ne-unfinished fuel next.reads next.decoder h k (omega (arith, lt, b)))

  pub read_loop-ne-unfinished :
      (reads : List SocketRead) (d : Decoder)
      → silent ≢ unfinished
      → ((f : Frame) → IsFair (arm f))
      → (read_loop silent arm reads d).0 ≢ fails unfinished
  unfolding read_loop
  read_loop-ne-unfinished reads d h k =
      read_until-ne-unfinished (left d + to_read reads + 1) reads d h k (omega arith)
