-- ===== src/Stomp/Progress.antt =====
-- `next_frame` of src/protocols/stomp_codec.rs on every buffer: its loops end, and a content
-- length that overflows the cursor.
use strobengine.Prelude.{
  ℕ, zero, suc, ◌+◌, ◌≤◌, ◌<◌, ◌≡◌, refl, ◌≢◌, ◌⊎◌, inl, inr, is_empty, [], ◌∷◌, ◌++◌, some, arith,
  length, take, drop, get_elem?, length-drop, Option-cases, Bool-cases,
}
use strobengine.Prelude.Words.{u64_mod, add64}
use strobengine.Text.Utf8.{Bytes, is_utf8}
use strobengine.Stomp.Escape.{CodecError}
use strobengine.Stomp.Frame.{Headers}
use strobengine.Stomp.Decoder.{
  Decoder, HeaderBlock, HeaderLine, blank, pair, bad, no_fuel, out_of_fuel, panics, unread,
  skip_eols, skip_heartbeats, strip_cr, find, sized_body, open_body, read_body, read_headers,
  read_line, read_frame, next_frame_in, next_frame,
}
use strobengine.Stomp.RoundTrip.{unread-compact}

pub find-lt_length : (bs : Bytes) (needle : ℕ) {n : ℕ} → find bs needle ≡ some n → n < length bs
unfolding find
find-lt_length [] needle h = cc
find-lt_length (b ∷ bs) needle h = elim (Option-cases (find bs needle)) [
  | inl e ↦ ground arith
  | inr (n, e) ↦ ground (arith, find-lt_length bs needle e)
]

pub HeaderLine-cases :
    (l : HeaderLine)
    → (l ≡ blank)
      ⊎ (((name : Bytes) × (value : Bytes) × (l ≡ pair name value))
          ⊎ ((e : CodecError) × (l ≡ bad e)))
HeaderLine-cases blank = inl refl
HeaderLine-cases (pair name value) = inr (inl (name, value, refl))
HeaderLine-cases (bad e) = inr (inr (e, refl))

read_headers-ne-no_fuel :
    (fuel : ℕ) (rest : Bytes) (cursor : ℕ) (acc : Headers)
    → length rest < fuel
    → read_headers fuel rest cursor acc ≢ no_fuel
unfolding read_headers
read_headers-ne-no_fuel zero rest cursor acc h = elim h [ ]
read_headers-ne-no_fuel (suc fuel) rest cursor acc h = elim (Option-cases (find rest b'\n')) [
  | inl e ↦ rw (e, read_headers) (λ x. cc)
  | inr (n, e) ↦ elim (HeaderLine-cases (read_line (strip_cr (take n rest)))) [
    | inl b ↦ rw (e, b, read_headers) (λ x. cc)
    | inr (inl (name, value, p)) ↦
        rw (e, p, read_headers)
          (read_headers-ne-no_fuel fuel (drop (n + 1) rest) (cursor + n + 1)
            (acc ++ (name, value) ∷ [])
            (omega (arith, length-drop (n + 1) rest, find-lt_length rest b'\n' e)))
    | inr (inr (x, p)) ↦ rw (e, p, read_headers) (λ y. cc)
  ]
]

read_body-ne-out_of_fuel :
    (d : Decoder) (command : Bytes) (b : HeaderBlock)
    → b ≢ no_fuel
    → (read_body d command b).0 ≢ out_of_fuel
unfolding read_body sized_body open_body
read_body-ne-out_of_fuel d command b h = ground arith

read_frame-ne-out_of_fuel : (d : Decoder) (n : ℕ) → (read_frame d n).0 ≢ out_of_fuel
unfolding read_frame
read_frame-ne-out_of_fuel d n =
    let rest = drop (n + 1) (unread d) in
    let fine = read_headers-ne-no_fuel (length rest + 1) rest (d.pos + n + 1) [] (omega arith) in
    elim (Bool-cases (is_utf8 (strip_cr (take n (unread d))))) [
      | inl e ↦ rw (e, read_frame) (read_body-ne-out_of_fuel d _ _ fine)
      | inr e ↦ rw (e, read_frame) (λ x. cc)
    ]

skip_eols-ge : (bs : Bytes) (pos : ℕ) → pos ≤ skip_eols bs pos
unfolding skip_eols
skip_eols-ge [] pos = omega arith
skip_eols-ge (b ∷ bs) pos = ground (arith, skip_eols-ge bs (pos + 1))

pub length-unread_skip_le : (d : Decoder) → length (unread (skip_heartbeats d)) ≤ length (unread d)
unfolding skip_heartbeats
length-unread_skip_le d = rw unread-compact (
    omega (
      arith,
      skip_eols-ge (unread d) d.pos,
      length-drop d.pos d.buf,
      length-drop (skip_eols (unread d) d.pos) d.buf,
    ))

next_frame_in-ne-out_of_fuel :
    (fuel : ℕ) (d : Decoder) → length (unread d) < fuel → (next_frame_in fuel d).0 ≢ out_of_fuel
unfolding next_frame_in
next_frame_in-ne-out_of_fuel zero d h = elim h [ ]
next_frame_in-ne-out_of_fuel (suc fuel) d h =
    let s = skip_heartbeats d in
    elim (Option-cases (find (unread s) b'\n')) [
      | inl e ↦ rw (e, next_frame_in) (λ x. cc)
      | inr (n, e) ↦ elim (Bool-cases (is_empty (strip_cr (take n (unread s))))) [
        | inl b ↦
            rw (e, b, next_frame_in)
              (next_frame_in-ne-out_of_fuel fuel (record s { pos = s.pos + n + 1 })
                (omega (
                  arith,
                  length-unread_skip_le d,
                  find-lt_length (unread s) b'\n' e,
                  length-drop s.pos s.buf,
                  length-drop (s.pos + n + 1) s.buf,
                )))
        | inr b ↦ rw (e, b, next_frame_in) (read_frame-ne-out_of_fuel s n)
      ]
    ]

-- On every buffer `next_frame` ends: the rounds that the model allows are enough.
pub next_frame-ne-out_of_fuel : (d : Decoder) → (next_frame d).0 ≢ out_of_fuel
unfolding next_frame
next_frame-ne-out_of_fuel d = next_frame_in-ne-out_of_fuel (length (unread d) + 1) d (omega arith)

-- A content length whose sum with the cursor passes 2 ^ 64 and lands on an earlier NULL of the
-- buffer, such as the end of a frame read before, makes `sized_body` cut a slice backwards.
pub sized_body-panics :
    (d : Decoder) (command : Bytes) (headers : Headers) (cursor len k : ℕ)
    → cursor + len ≡ u64_mod + k
    → k < cursor
    → k < u64_mod
    → get_elem? d.buf k ≡ some 0
    → (sized_body d command headers cursor len).0 ≡ panics
unfolding sized_body
sized_body-panics d command headers cursor len k e lt small at =
    let wrapped : add64 cursor len ≡ k = omega arith in rw (wrapped, at, sized_body) (ground arith)
