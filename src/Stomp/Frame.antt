-- ===== src/Stomp/Frame.antt =====
-- `Frame` of src/protocols/stomp_codec.rs: its headers and `encode`.
use strobengine.Prelude.{
  ℕ, ◌≡◌, true, List, [], ◌∷◌, ◌++◌, Option, none, some, arith, if◌then◌else◌,
}
use strobengine.Text.Utf8.{Bytes}
use strobengine.Text.Trim.{trim}
use strobengine.Text.Numbers.{parse_usize}
use strobengine.Text.Compare.{eq_ignore_ascii_case}
use strobengine.Stomp.Escape.{encode_header}

abbrev pub Headers : Type 0
Headers = List (Bytes × Bytes)

pub record Frame : Type 0 where
  pub command : Bytes
  pub headers : Headers
  pub body : Bytes

-- `Frame::new`
unfoldable pub new : Bytes → Frame
new command = record { command = command; headers = []; body = [] }

-- The first pair whose name agrees but for ASCII case.
unfoldable pub header_in : Headers → Bytes → Option Bytes
header_in [] name = none
header_in ((k, v) ∷ rest) name = if eq_ignore_ascii_case k name then some v else header_in rest name

-- Replaces the value of that pair, or appends a pair.
unfoldable pub set_in : Headers → Bytes → Bytes → Headers
set_in [] name value = (name, value) ∷ []
set_in ((k, v) ∷ rest) name value =
    if eq_ignore_ascii_case k name then (k, value) ∷ rest else (k, v) ∷ set_in rest name value

unfoldable pub set_header : Frame → Bytes → Bytes → Frame
set_header f name value = record f { headers = set_in f.headers name value }

unfoldable pub header : Frame → Bytes → Option Bytes
header f name = header_in f.headers name

-- b"content-length"
abbrev pub content_length_name : Bytes
content_length_name =
    b'c' ∷ b'o' ∷ b'n' ∷ b't' ∷ b'e' ∷ b'n' ∷ b't' ∷ b'-' ∷ b'l' ∷ b'e' ∷ b'n' ∷ b'g' ∷ b't' ∷ b'h'
    ∷ []

abbrev pub parse_length : Option Bytes → Option ℕ
parse_length none = none
parse_length (some v) = parse_usize (trim v)

unfoldable pub content_length : Frame → Option ℕ
unfolding header
content_length f = parse_length (header f content_length_name)

-- One header line with its line feed.
unfoldable pub header_line : Bytes × Bytes → Bytes
header_line (name, value) = encode_header name ++ (b':' ∷ (encode_header value ++ b'\n' ∷ []))

unfoldable pub header_lines : Headers → Bytes
header_lines [] = []
header_lines (h ∷ rest) = header_line h ++ header_lines rest

unfoldable pub encode : Frame → Bytes
encode f = f.command ++ (b'\n' ∷ (header_lines f.headers ++ (b'\n' ∷ (f.body ++ 0 ∷ []))))

-- After `set_header` the name is found with the new value.
pub header_in-set_in :
    (hs : Headers) (name value : Bytes)
    → eq_ignore_ascii_case name name ≡ true
    → header_in (set_in hs name value) name ≡ some value
unfolding header_in set_in
header_in-set_in [] name value e = rw e
header_in-set_in ((k, v) ∷ hs) name value e = ground (arith, header_in-set_in hs name value e)
