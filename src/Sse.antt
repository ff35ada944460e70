-- ===== src/Sse.antt =====
-- The Server-Sent Events engine, src/protocols/sse.rs: its stream parser. A `String` is the list of
-- its bytes.
pub mod Frames
pub mod Segments
pub mod Session
pub mod Counting
pub mod Reported
mod Tests
use strobengine.Prelude.{
  ℕ, zero, suc, ◌+◌, Bool, true, false, List, [], ◌∷◌, ◌++◌, Option, none, some, min, ◌==◌, ◌&&◌,
  if◌then◌else◌, length, take, drop, is_empty,
}
use strobengine.Text.Utf8.{Bytes}
use strobengine.Chaos.{ascii}
use strobengine.Stomp.Decoder.{strip_cr}

pub record SseEvent : Type 0 where
  pub event_type : Bytes
  pub «data» : Bytes
  pub id : Option Bytes

-- `text.starts_with(needle)`
unfoldable pub starts_with : Bytes → Bytes → Bool
starts_with [] text = true
starts_with (n ∷ ns) [] = false
starts_with (n ∷ ns) (b ∷ bs) = n == b && starts_with ns bs

-- `text.find(needle)`
unfoldable pub find_text : Bytes → Bytes → Option ℕ
find_text needle [] = if is_empty needle then some 0 else none
find_text needle (b ∷ bs) =
    let rest = find_text needle bs in
    if starts_with needle (b ∷ bs)
    then some 0
    else elim rest [ none ↦ none | some n ↦ some (suc n) ]

-- `"\r\n\r\n"` and `"\n\n"`
abbrev pub crlf_crlf : Bytes
crlf_crlf = b'\r' ∷ b'\n' ∷ b'\r' ∷ b'\n' ∷ []

abbrev pub lf_lf : Bytes
lf_lf = b'\n' ∷ b'\n' ∷ []

unfoldable pub earlier : Option ℕ → Option ℕ → Option ℕ
earlier (some c) (some l) = some (min c l)
earlier (some c) none = some c
earlier none l = l

unfoldable pub find_frame_end : Bytes → Option ℕ
find_frame_end buffer = earlier (find_text crlf_crlf buffer) (find_text lf_lf buffer)

-- `text.strip_prefix(needle)`
unfoldable pub strip_prefix : Bytes → Bytes → Option Bytes
strip_prefix needle text =
    if starts_with needle text then some (drop (length needle) text) else none

-- `frame.lines()`; `line` is the part read of the current line. A line that is not terminated
-- keeps its `\r`.
unfoldable pub lines_from : Bytes → Bytes → List Bytes
lines_from line [] = if is_empty line then [] else line ∷ []
lines_from line (b ∷ bs) = elim (b == b'\n') [
  | true ↦ strip_cr line ∷ lines_from [] bs
  | false ↦ lines_from (line ++ b ∷ []) bs
]

unfoldable pub strip_space : Bytes → Bytes
strip_space value = elim (strip_prefix (ascii " ") value) [ none ↦ value | some rest ↦ rest ]

-- What the loop of `parse_frame` carries.
pub record Fields : Type 0 where
  pub event_type : Bytes
  pub data_lines : List Bytes
  pub id : Option Bytes

-- One line of a frame.
unfoldable pub read_field : Fields → Bytes → Fields
read_field f line =
    if starts_with (ascii ":") line then f else elim (strip_prefix (ascii "data:") line) [
      | some value ↦ record f { data_lines = f.data_lines ++ strip_space value ∷ [] }
      | none ↦ elim (strip_prefix (ascii "event:") line) [
        | some value ↦ record f { event_type = strip_space value }
        | none ↦ elim (strip_prefix (ascii "id:") line) [
          | some value ↦ record f { id = some (strip_space value) }
          | none ↦ f
        ]
      ]
    ]

unfoldable pub read_fields : Fields → List Bytes → Fields
read_fields f [] = f
read_fields f (line ∷ ls) = read_fields (read_field f line) ls

-- `data_lines.join("\n")`
unfoldable pub join_lines : List Bytes → Bytes
join_lines [] = []
join_lines (line ∷ []) = line
join_lines (line ∷ next ∷ ls) = line ++ b'\n' ∷ join_lines (next ∷ ls)

unfoldable pub finish_frame : Fields → Option SseEvent
finish_frame f =
    if is_empty f.data_lines
    then none
    else (some (record { event_type = f.event_type; «data» = join_lines f.data_lines; id = f.id }))

unfoldable pub parse_frame : Bytes → Option SseEvent
parse_frame frame =
    finish_frame
      (read_fields (record { event_type = []; data_lines = []; id = none }) (lines_from [] frame))

unfoldable pub push_event : Option SseEvent → List SseEvent → List SseEvent
push_event none events = events
push_event (some e) events = e ∷ events

abbrev delim_len : Bytes → ℕ
delim_len tail = if starts_with crlf_crlf tail then 4 else 2

-- The frame that ends at `frame_end`, and the buffer after `drain`.
unfoldable pub cut_at : Bytes → ℕ → Bytes × Bytes
cut_at buffer frame_end =
    (take frame_end buffer, drop (frame_end + delim_len (drop frame_end buffer)) buffer)

-- The loop of `parse_sse_chunk`: its events and what is left of the buffer.
unfoldable pub take_frames : ℕ → Bytes → List SseEvent × Bytes
take_frames zero buffer = ([], buffer)
take_frames (suc fuel) buffer = elim (find_frame_end buffer) [
  | none ↦ ([], buffer)
  | some frame_end ↦
      let (frame, rest) = cut_at buffer frame_end in
      let (events, left) = take_frames fuel rest in (push_event (parse_frame frame) events, left)
]

-- Each round takes a delimiter out of the buffer, so its length is enough fuel.
unfoldable pub parse_sse_chunk : Bytes → Bytes → List SseEvent × Bytes
parse_sse_chunk buffer chunk = take_frames (length (buffer ++ chunk)) (buffer ++ chunk)
