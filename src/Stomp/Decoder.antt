-- ===== src/Stomp/Decoder.antt =====
-- `Decoder` of src/protocols/stomp_codec.rs. A read past `pos` is written on the bytes from the
-- cursor on, `drop cursor buf`.
use strobengine.Prelude.{
  ℕ, zero, suc, ◌+◌, ◌-◌, true, false, [], ◌∷◌, ◌++◌, Option, none, some, leb, ltb, ◌==◌, ◌&&◌,
  ◌||◌, if◌then◌else◌, length, take, drop, is_empty, get_elem?,
}
use strobengine.Prelude.Words.{add64}
use strobengine.Text.Utf8.{Bytes, is_utf8}
use strobengine.Text.Trim.{trim}
use strobengine.Stomp.Escape.{
  CodecError, utf8, missing_header_value, missing_null, Result, ok, err, decode_header, ◌>>=◌,
}
use strobengine.Stomp.Frame.{Frame, Headers, header_in, content_length_name, parse_length}

-- A lone trailing `\r` is dropped.
unfoldable pub strip_cr : Bytes → Bytes
strip_cr [] = []
strip_cr (b ∷ []) = if b == b'\r' then [] else b ∷ []
strip_cr (b ∷ c ∷ rest) = b ∷ strip_cr (c ∷ rest)

-- The position of the first `needle`.
unfoldable pub find : Bytes → ℕ → Option ℕ
find [] needle = none
find (b ∷ bs) needle =
    let rest = find bs needle in
    if b == needle then some 0 else elim rest [ none ↦ none | some n ↦ some (suc n) ]

pub record Decoder : Type 0 where
  pub buf : Bytes
  pub pos : ℕ

unfoldable pub new : Decoder
new = record { buf = []; pos = 0 }

unfoldable pub push : Decoder → Bytes → Decoder
push d bytes = record d { buf = d.buf ++ bytes }

unfoldable pub pending : Decoder → ℕ
pending d = length d.buf - d.pos

-- The bytes from the cursor on.
abbrev pub unread : Decoder → Bytes
unread d = drop d.pos d.buf

unfoldable pub compact : Decoder → Decoder
compact d =
    if ltb 0 d.pos && (d.pos == length d.buf || leb 4096 d.pos)
    then record { buf = drop d.pos d.buf; pos = 0 }
    else d

-- The loop of `skip_heartbeats` over the bytes from `pos` on: the new `pos`.
unfoldable pub skip_eols : Bytes → ℕ → ℕ
skip_eols [] pos = pos
skip_eols (b ∷ bs) pos =
    let rest = skip_eols bs (pos + 1) in if b == b'\n' || b == b'\r' then rest else pos

unfoldable pub skip_heartbeats : Decoder → Decoder
skip_heartbeats d = compact (record d { pos = skip_eols (unread d) d.pos })

-- One line of the header block.
pub data HeaderLine : Type 0 where
  blank : HeaderLine
  pair : Bytes → Bytes → HeaderLine
  bad : CodecError → HeaderLine

abbrev of_result : Result (Bytes × Bytes) → HeaderLine
of_result (ok (name, value)) = pair name value
of_result (err e) = bad e

unfoldable pub decode_pair : Bytes → ℕ → Result (Bytes × Bytes)
decode_pair line colon = do
  name ← decode_header (take colon line)
  value ← decode_header (drop (colon + 1) line)
  ok (name, value)

unfoldable pub read_line : Bytes → HeaderLine
read_line line = if is_empty line then blank else elim (find line b':') [
  | none ↦ bad missing_header_value
  | some colon ↦ of_result (decode_pair line colon)
]

-- What the header loop ends with: the end of the buffer, an error, or the headers and the cursor.
pub data HeaderBlock : Type 0 where
  partial : HeaderBlock
  failed : CodecError → HeaderBlock
  done : Headers → ℕ → HeaderBlock
  no_fuel : HeaderBlock

-- The header loop. `rest` is the buffer from `cursor` on; each round takes one line off it.
unfoldable pub read_headers : ℕ → Bytes → ℕ → Headers → HeaderBlock
read_headers zero rest cursor headers = no_fuel
read_headers (suc fuel) rest cursor headers = elim (find rest b'\n') [
  | none ↦ partial
  | some n ↦ elim (read_line (strip_cr (take n rest))) [
    | blank ↦ done headers (cursor + n + 1)
    | pair name value ↦
        read_headers fuel (drop (n + 1) rest) (cursor + n + 1) (headers ++ (name, value) ∷ [])
    | bad e ↦ failed e
  ]
]

-- What `next_frame` returns: `Ok(None)`, `Ok(Some(frame))`, `Err(e)`, or a panic on a slice whose
-- end lies before its start.
pub data Decoded : Type 0 where
  incomplete : Decoded
  frame : Frame → Decoded
  error : CodecError → Decoded
  panics : Decoded
  out_of_fuel : Decoded

-- A body of the announced length. The sum is a `usize`.
unfoldable pub sized_body : Decoder → Bytes → Headers → ℕ → ℕ → Decoded × Decoder
sized_body d command headers cursor len =
    let body_end = add64 cursor len in
    elim (get_elem? d.buf body_end) [
      | none ↦ (incomplete, d)
      | some b ↦
          if b == 0
          then (if ltb body_end cursor then (panics, d) else (
            frame (record {
              command = command;
              headers = headers;
              body = take (body_end - cursor) (drop cursor d.buf);
            }),
            compact (record d { pos = body_end + 1 }),
          ))
          else (error missing_null, d)
    ]

-- Drops one line end, `\n` or `\r\n`.
unfoldable pub strip_eol : Bytes → Bytes
strip_eol [] = []
strip_eol (b ∷ []) = if b == b'\n' then [] else b ∷ []
strip_eol (b ∷ c ∷ []) = if c == b'\n' then strip_cr (b ∷ []) else b ∷ c ∷ []
strip_eol (b ∷ c ∷ e ∷ rest) = b ∷ strip_eol (c ∷ e ∷ rest)

-- A body up to the first NULL.
unfoldable pub open_body : Decoder → Bytes → Headers → ℕ → Decoded × Decoder
open_body d command headers cursor = elim (find (drop cursor d.buf) 0) [
  | none ↦ (incomplete, d)
  | some n ↦ (
    frame (record {
      command = command;
      headers = headers;
      body = strip_eol (take n (drop cursor d.buf));
    }),
    compact (record d { pos = cursor + n + 1 }),
  )
]

unfoldable pub read_body : Decoder → Bytes → HeaderBlock → Decoded × Decoder
read_body d command partial = (incomplete, d)
read_body d command (failed e) = (error e, d)
read_body d command no_fuel = (out_of_fuel, d)
read_body d command (done headers cursor) =
    elim (parse_length (header_in headers content_length_name)) [
      | none ↦ open_body d command headers cursor
      | some len ↦ sized_body d command headers cursor len
    ]

-- The frame behind a command line of `n` bytes.
unfoldable pub read_frame : Decoder → ℕ → Decoded × Decoder
read_frame d n =
    let line = strip_cr (take n (unread d)) in
    let rest = drop (n + 1) (unread d) in
    if is_utf8 line
    then read_body d (trim line) (read_headers (length rest + 1) rest (d.pos + n + 1) [])
    else (error utf8, d)

unfoldable pub next_frame_in : ℕ → Decoder → Decoded × Decoder
next_frame_in zero d = (out_of_fuel, d)
next_frame_in (suc fuel) d =
    let s = skip_heartbeats d in
    elim (find (unread s) b'\n') [
      | none ↦ (incomplete, s)
      | some n ↦ elim (is_empty (strip_cr (take n (unread s)))) [
        | true ↦ next_frame_in fuel (record s { pos = s.pos + n + 1 })
        | false ↦ read_frame s n
      ]
    ]

-- One call recurs at most once for each line feed.
unfoldable pub next_frame : Decoder → Decoded × Decoder
next_frame d = next_frame_in (length (unread d) + 1) d
