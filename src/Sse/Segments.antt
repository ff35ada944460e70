-- ===== src/Sse/Segments.antt =====
-- `parse_sse_chunk` of src/protocols/sse.rs on a stream that arrives in pieces.
use strobengine.Prelude.{
  ℕ, zero, suc, ◌≤◌, ◌<◌, ◌≡◌, refl, sym, ◌∙◌, ap, subst, inl, inr, List, [], ◌∷◌, ◌++◌, Option,
  none, some, arith, length, append_assoc, append-nil, Option-cases,
}
use strobengine.Text.Utf8.{Bytes}
use strobengine.Sse.{
  SseEvent, parse_frame, push_event, parse_sse_chunk, take_frames, find_frame_end,
}
use strobengine.Sse.Frames.{
  cut, cut_end, cut_end-find_frame_end, cut-append, Extends, round, frames, frames-cut,
  cut-IsShorter, IsShorter,
}

push_event-append :
    (e : Option SseEvent) (xs ys : List SseEvent) → push_event e (xs ++ ys) ≡ push_event e xs ++ ys
unfolding push_event
push_event-append none xs ys = refl
push_event-append (some e) xs ys = refl

-- The events of a first part, then those of what it leaves with `more` behind it.
abbrev then_more : Bytes → List SseEvent × Bytes → List SseEvent × Bytes
then_more more (events, left) = (events ++ (frames (left ++ more)).0, (frames (left ++ more)).1)

round-then_more :
    (buffer more : Bytes) (o p : Option (Bytes × Bytes))
    → Extends more o p
    → IsShorter buffer o
    → p ≡ cut (buffer ++ more)
    → ((rest : Bytes)
        → length rest < length buffer
        → frames (rest ++ more) ≡ then_more more (frames rest))
    → round frames (buffer ++ more) p ≡ then_more more (round frames buffer o)
round-then_more buffer more none p x s e ih =
    ap (round frames (buffer ++ more)) e ∙ sym (frames-cut (buffer ++ more))
round-then_more buffer more (some (frame, rest)) p x s e ih =
    ap (round frames (buffer ++ more)) x
    ∙ ap (λ q. (push_event (parse_frame frame) q.0, q.1)) (ih rest s)
    ∙ ap (λ es. (es, (frames ((frames rest).1 ++ more)).1))
        (push_event-append (parse_frame frame) (frames rest).0 _)

frames-append_below :
    (n : ℕ) (buffer more : Bytes)
    → length buffer ≤ n
    → frames (buffer ++ more) ≡ then_more more (frames buffer)
unfolding take_frames
frames-append_below zero [] more h = frames-cut more ∙ sym (frames-cut more)
frames-append_below zero (b ∷ bs) more h = elim h [ ]
frames-append_below (suc n) buffer more h =
    frames-cut (buffer ++ more)
    ∙ round-then_more buffer more (cut buffer) (cut (buffer ++ more)) (cut-append buffer more)
        (cut-IsShorter buffer) refl (λ rest s. frames-append_below n rest more (omega arith))
    ∙ ap (then_more more) (sym (frames-cut buffer))

-- A stream that arrives in two pieces gives the events, and leaves the buffer, that it gives when
-- it arrives in one.
pub parse_sse_chunk-append :
    (buffer first second : Bytes)
    → parse_sse_chunk buffer (first ++ second) ≡ (
        let (events, left) = parse_sse_chunk buffer first in
        let (later, rest) = parse_sse_chunk left second in (events ++ later, rest))
unfolding parse_sse_chunk
parse_sse_chunk-append buffer first second =
    ap frames (sym (append_assoc buffer first second))
    ∙ frames-append_below (length (buffer ++ first)) (buffer ++ first) second (omega arith)

-- The chunks of a stream one after another, as the engine reads them.
unfoldable pub feed : Bytes → List Bytes → List SseEvent × Bytes
feed buffer [] = ([], buffer)
feed buffer (chunk ∷ chunks) =
    let (events, left) = parse_sse_chunk buffer chunk in
    let (later, rest) = feed left chunks in (events ++ later, rest)

-- The chunks in one piece.
abbrev pub joined : List Bytes → Bytes
joined [] = []
joined (chunk ∷ chunks) = chunk ++ joined chunks

nothing_left_below : (n : ℕ) (buffer : Bytes) → length buffer ≤ n → cut (frames buffer).1 ≡ none
unfolding take_frames cut
nothing_left_below zero [] h = refl
nothing_left_below zero (b ∷ bs) h = elim h [ ]
nothing_left_below (suc n) buffer h = elim (Option-cases (cut buffer)) [
  | inl e ↦ ap (λ p. cut p.1) (frames-cut buffer ∙ ap (round frames buffer) e) ∙ e
  | inr ((frame, rest), e) ↦
      ap (λ p. cut p.1) (frames-cut buffer ∙ ap (round frames buffer) e)
      ∙ nothing_left_below n rest
          (shorter rest frame (subst (IsShorter buffer) e (cut-IsShorter buffer)))
]
  where
    shorter : (rest frame : Bytes) → IsShorter buffer (some (frame, rest)) → length rest ≤ n
    shorter rest frame s = omega (arith, s, h)

-- What the loop leaves in the buffer holds no whole frame.
pub nothing_left : (buffer chunk : Bytes) → find_frame_end (parse_sse_chunk buffer chunk).1 ≡ none
unfolding parse_sse_chunk
nothing_left buffer chunk =
    no_end _ (nothing_left_below (length (buffer ++ chunk)) (buffer ++ chunk) (omega arith))
  where
    no_end : (b : Bytes) → cut b ≡ none → find_frame_end b ≡ none
    no_end b e = elim (Option-cases (find_frame_end b)) [
      | inl f ↦ f
      | inr (n, f) ↦ cc (ap (cut_end b) (sym f) ∙ cut_end-find_frame_end b ∙ e)
    ]

feed-parse_sse_chunk :
    (buffer : Bytes) (chunks : List Bytes)
    → cut buffer ≡ none
    → feed buffer chunks ≡ parse_sse_chunk buffer (joined chunks)
unfolding feed parse_sse_chunk
feed-parse_sse_chunk buffer [] h =
    sym (frames-cut buffer ∙ ap (round frames buffer) h) ∙ ap frames (sym (append-nil buffer))
feed-parse_sse_chunk buffer (chunk ∷ chunks) h =
    ap (λ p. ((frames (buffer ++ chunk)).0 ++ p.0, p.1))
      (feed-parse_sse_chunk (frames (buffer ++ chunk)).1 chunks
        (nothing_left_below (length (buffer ++ chunk)) (buffer ++ chunk) (omega arith)))
    ∙ sym (parse_sse_chunk-append buffer chunk (joined chunks))

-- A stream gives the same events, and leaves the same buffer, however it is cut into chunks: those
-- of the whole stream in one piece.
pub cuts_irrelevant : (chunks : List Bytes) → feed [] chunks ≡ parse_sse_chunk [] (joined chunks)
unfolding cut
cuts_irrelevant chunks = feed-parse_sse_chunk [] chunks refl
