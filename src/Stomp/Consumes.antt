-- ===== src/Stomp/Consumes.antt =====
-- `next_frame` of src/protocols/stomp_codec.rs takes bytes off the buffer: a frame at least one.
use strobengine.Prelude.{
  ℕ, false, zero, suc, ◌+◌, ◌≤◌, ◌<◌, ◌≡◌, inl, inr, is_empty, [], ◌∷◌, ◌++◌, arith, ltb, ◌==◌,
  length, take, drop, get_elem?, length-drop, Option-cases, Bool-cases,
}
use strobengine.Prelude.Words.{add64}
use strobengine.Text.Utf8.{Bytes, is_utf8}
use strobengine.Stomp.Frame.{Headers, content_length_name, parse_length, header_in}
use strobengine.Stomp.Decoder.{
  Decoder, Decoded, frame, HeaderBlock, done, unread, compact, skip_heartbeats, strip_cr, find,
  sized_body, open_body, read_body, read_headers, read_line, read_frame, next_frame_in, next_frame,
}
use strobengine.Stomp.RoundTrip.{unread-compact}
use strobengine.Stomp.Progress.{find-lt_length, HeaderLine-cases, length-unread_skip_le}

-- After a frame fewer than `n` bytes are left, and otherwise no more.
abbrev pub Shrinks : ℕ → Decoded × Decoder → Type 0
Shrinks n (frame f, d) = length (unread d) < n
Shrinks n (_, d) = length (unread d) ≤ n

-- A header block that is done ends past `least`.
abbrev EndsPast : ℕ → HeaderBlock → Type 0
EndsPast least (done headers cursor) = least ≤ cursor
EndsPast least _ = Unit

read_headers-EndsPast :
    (fuel : ℕ) (rest : Bytes) (cursor : ℕ) (acc : Headers) (least : ℕ)
    → least ≤ cursor
    → EndsPast least (read_headers fuel rest cursor acc)
unfolding read_headers
read_headers-EndsPast zero rest cursor acc least h = tt
read_headers-EndsPast (suc fuel) rest cursor acc least h = elim (Option-cases (find rest b'\n')) [
  | inl e ↦ rw (e, read_headers) tt
  | inr (n, e) ↦ elim (HeaderLine-cases (read_line (strip_cr (take n rest)))) [
    | inl b ↦ rw (e, b, read_headers) (omega arith)
    | inr (inl (name, value, p)) ↦
        rw (e, p, read_headers)
          (read_headers-EndsPast fuel (drop (n + 1) rest) (cursor + n + 1)
            (acc ++ (name, value) ∷ []) least (omega arith))
    | inr (inr (x, p)) ↦ rw (e, p, read_headers) tt
  ]
]

cut_shrinks :
    (d : Decoder) (next : ℕ)
    → d.pos < next
    → d.pos < length d.buf
    → length (unread (compact (record d { pos = next }))) < length (unread d)
cut_shrinks d next p q =
    rw unread-compact (omega (arith, length-drop next d.buf, length-drop d.pos d.buf))

sized_body-Shrinks :
    (d : Decoder) (command : Bytes) (headers : Headers) (cursor len : ℕ)
    → d.pos < cursor
    → d.pos < length d.buf
    → Shrinks (length (unread d)) (sized_body d command headers cursor len)
unfolding sized_body
sized_body-Shrinks d command headers cursor len p q =
    elim (Option-cases (get_elem? d.buf (add64 cursor len))) [
      | inl e ↦ rw (e, sized_body) (omega arith)
      | inr (b, e) ↦ elim (Bool-cases (b == 0)) [
        | inr z ↦ rw (e, z, sized_body) (omega arith)
        | inl z ↦ elim (Bool-cases (ltb (add64 cursor len) cursor)) [
          | inl l ↦ rw (e, z, l, sized_body) (omega arith)
          | inr l ↦
              rw (e, z, l, sized_body)
                (cut_shrinks d (add64 cursor len + 1) (past_end (add64 cursor len) l) q)
        ]
      ]
    ]
  where
    past_end : (e : ℕ) → ltb e cursor ≡ false → d.pos < e + 1
    past_end e l = ground (arith, l, p)

open_body-Shrinks :
    (d : Decoder) (command : Bytes) (headers : Headers) (cursor : ℕ)
    → d.pos < cursor
    → d.pos < length d.buf
    → Shrinks (length (unread d)) (open_body d command headers cursor)
unfolding open_body
open_body-Shrinks d command headers cursor p q = elim (Option-cases (find (drop cursor d.buf) 0)) [
  | inl e ↦ rw (e, open_body) (omega arith)
  | inr (n, e) ↦ rw (e, open_body) (cut_shrinks d (cursor + n + 1) (omega arith) q)
]

read_body-Shrinks :
    (d : Decoder) (command : Bytes) (b : HeaderBlock)
    → EndsPast (suc d.pos) b
    → d.pos < length d.buf
    → Shrinks (length (unread d)) (read_body d command b)
unfolding read_body
read_body-Shrinks d command (done headers cursor) p q =
    elim (Option-cases (parse_length (header_in headers content_length_name))) [
      | inl e ↦ rw (e, read_body) (open_body-Shrinks d command headers cursor p q)
      | inr (len, e) ↦ rw (e, read_body) (sized_body-Shrinks d command headers cursor len p q)
    ]
read_body-Shrinks d command _ p q = omega arith

read_frame-Shrinks :
    (d : Decoder) (n : ℕ) → d.pos < length d.buf → Shrinks (length (unread d)) (read_frame d n)
unfolding read_frame
read_frame-Shrinks d n q =
    let rest = drop (n + 1) (unread d) in
    let past =
      read_headers-EndsPast (length rest + 1) rest (d.pos + n + 1) [] (suc d.pos) (omega arith) in
    elim (Bool-cases (is_utf8 (strip_cr (take n (unread d))))) [
      | inl e ↦ rw (e, read_frame) (read_body-Shrinks d _ _ past q)
      | inr e ↦ rw (e, read_frame) (omega arith)
    ]

weaken_shrinking : (m n : ℕ) (r : Decoded × Decoder) → m ≤ n → Shrinks m r → Shrinks n r
weaken_shrinking m n (frame f, d) h s = omega arith
weaken_shrinking m n (_, d) h s = omega arith

next_frame_in-Shrinks :
    (fuel : ℕ) (d : Decoder) → Shrinks (length (unread d)) (next_frame_in fuel d)
unfolding next_frame_in
next_frame_in-Shrinks zero d = omega arith
next_frame_in-Shrinks (suc fuel) d =
    let s = skip_heartbeats d in
    elim (Option-cases (find (unread s) b'\n')) [
      | inl e ↦ rw (e, next_frame_in) (length-unread_skip_le d)
      | inr (n, e) ↦
          let within = find-lt_length (unread s) b'\n' e in
          elim (Bool-cases (is_empty (strip_cr (take n (unread s))))) [
            | inl b ↦
                rw (e, b, next_frame_in)
                  (weaken_shrinking _ _ (next_frame_in fuel (record s { pos = s.pos + n + 1 }))
                    (omega (
                      arith,
                      length-unread_skip_le d,
                      length-drop s.pos s.buf,
                      length-drop (s.pos + n + 1) s.buf,
                    ))
                    (next_frame_in-Shrinks fuel (record s { pos = s.pos + n + 1 })))
            | inr b ↦
                rw (e, b, next_frame_in)
                  (weaken_shrinking _ _ (read_frame s n) (length-unread_skip_le d)
                    (read_frame-Shrinks s n (omega (arith, within, length-drop s.pos s.buf))))
          ]
    ]

pub next_frame-Shrinks : (d : Decoder) → Shrinks (length (unread d)) (next_frame d)
unfolding next_frame
next_frame-Shrinks d = next_frame_in-Shrinks (length (unread d) + 1) d
