-- ===== src/Sse/Frames.antt =====
-- How `parse_sse_chunk` of src/protocols/sse.rs cuts a stream into frames.
use strobengine.Prelude.{
  ℕ, zero, suc, ◌≤◌, ◌<◌, ◌≡◌, refl, sym, ◌∙◌, ap, inl, inr, List, [], ◌∷◌, ◌++◌, Option, none,
  some, arith, if◌then◌else◌, length, drop, length-drop, Bool-cases, Option-cases,
}
use native.Mathlib.Nat.{suc-add}
use strobengine.Text.Utf8.{Bytes}
use strobengine.Sse.{
  SseEvent, starts_with, find_text, crlf_crlf, lf_lf, earlier, find_frame_end, cut_at, parse_frame,
  push_event, take_frames,
}

abbrev shift : Option (Bytes × Bytes) → ℕ → Option (Bytes × Bytes)
shift none b = none
shift (some (f, r)) b = some (b ∷ f, r)

-- The first frame of a buffer and what follows its delimiter, in one pass.
unfoldable pub cut : Bytes → Option (Bytes × Bytes)
cut [] = none
cut (b ∷ bs) =
    let rest = cut bs in
    if starts_with crlf_crlf (b ∷ bs)
    then some ([], drop 4 (b ∷ bs))
    else if starts_with lf_lf (b ∷ bs)
    then some ([], drop 2 (b ∷ bs))
    else shift rest b

abbrev pub cut_end : Bytes → Option ℕ → Option (Bytes × Bytes)
cut_end buffer none = none
cut_end buffer (some e) = some (cut_at buffer e)

abbrev later : Option ℕ → Option ℕ
later none = none
later (some n) = some (suc n)

shift-cut_at :
    (b : ℕ) (bs : Bytes) (e : ℕ) → some (cut_at (b ∷ bs) (suc e)) ≡ shift (some (cut_at bs e)) b
unfolding cut_at
shift-cut_at b bs e = rw suc-add refl

earlier-later : (c l : Option ℕ) → earlier (later c) (later l) ≡ later (earlier c l)
unfolding earlier
earlier-later none none = refl
earlier-later none (some l) = refl
earlier-later (some c) none = refl
earlier-later (some c) (some l) = ap some (omega arith)

shift-cut_end :
    (b : ℕ) (bs : Bytes) (e : Option ℕ) → cut_end (b ∷ bs) (later e) ≡ shift (cut_end bs e) b
shift-cut_end b bs none = refl
shift-cut_end b bs (some e) = shift-cut_at b bs e

earlier-zero : (l : Option ℕ) → earlier (some 0) l ≡ some 0
unfolding earlier
earlier-zero none = refl
earlier-zero (some l) = ap some (omega arith)

earlier_zero : (c : Option ℕ) → earlier c (some 0) ≡ some 0
unfolding earlier
earlier_zero none = refl
earlier_zero (some c) = ap some (omega arith)

-- The two searches and the arithmetic on their results find the same frame as the one pass.
pub cut_end-find_frame_end : (buffer : Bytes) → cut_end buffer (find_frame_end buffer) ≡ cut buffer
unfolding find_frame_end cut find_text earlier cut_at
cut_end-find_frame_end [] = refl
cut_end-find_frame_end (b ∷ bs) = elim (Bool-cases (starts_with crlf_crlf (b ∷ bs))) [
  | inl t ↦ rw (t, find_text, cut, earlier-zero) (rw t refl)
  | inr t ↦ elim (Bool-cases (starts_with lf_lf (b ∷ bs))) [
    | inl u ↦ rw (t, u, find_text, cut, earlier_zero) (rw t refl)
    | inr u ↦
        rw (t, u, find_text, cut)
          (ap (cut_end (b ∷ bs)) (earlier-later (find_text crlf_crlf bs) (find_text lf_lf bs))
            ∙ shift-cut_end b bs (find_frame_end bs)
            ∙ ap (λ r. shift r b) (cut_end-find_frame_end bs))
  ]
]

-- One round of the loop, on the frame that `cut` finds.
abbrev pub round :
    (Bytes → List SseEvent × Bytes) → Bytes → Option (Bytes × Bytes) → List SseEvent × Bytes
round go buffer none = ([], buffer)
round go buffer (some (frame, rest)) =
    let (events, left) = go rest in (push_event (parse_frame frame) events, left)

take_frames-suc :
    (fuel : ℕ) (buffer : Bytes)
    → take_frames (suc fuel) buffer ≡ round (take_frames fuel) buffer (cut buffer)
unfolding take_frames
take_frames-suc fuel buffer = elim (Option-cases (find_frame_end buffer)) [
  | inl e ↦
      rw (e, take_frames)
        (ap (round (take_frames fuel) buffer)
          (ap (cut_end buffer) (sym e) ∙ cut_end-find_frame_end buffer))
  | inr (n, e) ↦
      rw (e, take_frames)
        (ap (round (take_frames fuel) buffer)
          (ap (cut_end buffer) (sym e) ∙ cut_end-find_frame_end buffer))
]

-- What follows the frame is shorter than the buffer.
abbrev pub IsShorter : Bytes → Option (Bytes × Bytes) → Type 0
IsShorter buffer none = Unit
IsShorter buffer (some (frame, rest)) = length rest < length buffer

IsShorter-shift :
    (b : ℕ) (bs : Bytes) (o : Option (Bytes × Bytes))
    → IsShorter bs o
    → IsShorter (b ∷ bs) (shift o b)
IsShorter-shift b bs none h = tt
IsShorter-shift b bs (some (frame, rest)) h = omega (arith, h)

pub cut-IsShorter : (buffer : Bytes) → IsShorter buffer (cut buffer)
unfolding cut
cut-IsShorter [] = tt
cut-IsShorter (b ∷ bs) = elim (Bool-cases (starts_with crlf_crlf (b ∷ bs))) [
  | inl t ↦ rw (t, cut) (omega (arith, length-drop 3 bs))
  | inr t ↦ elim (Bool-cases (starts_with lf_lf (b ∷ bs))) [
    | inl u ↦ rw (t, u, cut) (omega (arith, length-drop 1 bs))
    | inr u ↦ rw (t, u, cut) (IsShorter-shift b bs (cut bs) (cut-IsShorter bs))
  ]
]

round-same :
    (go other : Bytes → List SseEvent × Bytes) (buffer : Bytes) (o : Option (Bytes × Bytes))
    → IsShorter buffer o
    → ((rest : Bytes) → length rest < length buffer → go rest ≡ other rest)
    → round go buffer o ≡ round other buffer o
round-same go other buffer none h same = refl
round-same go other buffer (some (frame, rest)) h same =
    ap (λ p. (push_event (parse_frame frame) p.0, p.1)) (same rest h)

take_frames-nil : (fuel : ℕ) → take_frames fuel [] ≡ ([], [])
unfolding take_frames cut
take_frames-nil zero = refl
take_frames-nil (suc fuel) = take_frames-suc fuel []

-- The loop gives the same on every fuel that is at least the length of the buffer.
pub take_frames_enough :
    (fuel more : ℕ) (buffer : Bytes)
    → length buffer ≤ fuel
    → length buffer ≤ more
    → take_frames fuel buffer ≡ take_frames more buffer
take_frames_enough fuel more [] h k = take_frames-nil fuel ∙ sym (take_frames-nil more)
take_frames_enough zero more (b ∷ bs) h k = elim h [ ]
take_frames_enough (suc fuel) zero (b ∷ bs) h k = elim k [ ]
take_frames_enough (suc fuel) (suc more) (b ∷ bs) h k =
    take_frames-suc fuel (b ∷ bs)
    ∙ round-same (take_frames fuel) (take_frames more) (b ∷ bs) (cut (b ∷ bs))
        (cut-IsShorter (b ∷ bs))
        (λ rest s. take_frames_enough fuel more rest (omega arith) (omega arith))
    ∙ sym (take_frames-suc more (b ∷ bs))

-- The loop on the fuel that `parse_sse_chunk` gives it.
abbrev pub frames : Bytes → List SseEvent × Bytes
frames buffer = take_frames (length buffer) buffer

pub frames-cut : (buffer : Bytes) → frames buffer ≡ round frames buffer (cut buffer)
unfolding cut take_frames
frames-cut [] = refl
frames-cut (b ∷ bs) =
    take_frames-suc (length bs) (b ∷ bs)
    ∙ round-same (take_frames (length bs)) frames (b ∷ bs) (cut (b ∷ bs)) (cut-IsShorter (b ∷ bs))
        (λ rest s. take_frames_enough (length bs) (length rest) rest (omega arith) (omega arith))

-- A frame that is there is the same when more follows.
abbrev pub Extends : Bytes → Option (Bytes × Bytes) → Option (Bytes × Bytes) → Type 0
Extends more none o = Unit
Extends more (some (frame, rest)) o = o ≡ some (frame, rest ++ more)

Extends-shift :
    (b : ℕ) (more : Bytes) (o p : Option (Bytes × Bytes))
    → Extends more o p
    → Extends more (shift o b) (shift p b)
Extends-shift b more none p h = tt
Extends-shift b more (some (frame, rest)) p h = ap (λ o. shift o b) h

pub cut-append : (buffer more : Bytes) → Extends more (cut buffer) (cut (buffer ++ more))
unfolding cut starts_with
cut-append [] more = tt
cut-append (a ∷ []) more = ground arith
cut-append (a ∷ b ∷ []) more = ground arith
cut-append (a ∷ b ∷ c ∷ []) more = ground arith
cut-append (a ∷ b ∷ c ∷ d ∷ bs) more =
    elim (Bool-cases (starts_with crlf_crlf (a ∷ b ∷ c ∷ d ∷ bs))) [
      | inl t ↦ rw (t, cut) refl
      | inr t ↦ elim (Bool-cases (starts_with lf_lf (a ∷ b ∷ c ∷ d ∷ bs))) [
        | inl u ↦ rw (t, u, cut) refl
        | inr u ↦
            rw (t, u, cut)
              (Extends-shift a more (cut (b ∷ c ∷ d ∷ bs)) (cut (b ∷ c ∷ d ∷ bs ++ more))
                (cut-append (b ∷ c ∷ d ∷ bs) more))
      ]
    ]
