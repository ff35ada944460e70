-- ===== src/Stomp/Tests.antt =====
-- Runs of the codec of src/protocols/stomp_codec.rs, and its theorems at concrete frames.
use Prim.Native.Char.{code}
use Prim.Native.String.{String}
use strobengine.Prelude.{◌≡◌, ◌≢◌, refl, inr, [], ◌∷◌, ◌++◌, arith}
use strobengine.Text.Utf8.{Bytes, is_utf8}
use strobengine.Text.Trim.{trim}
use strobengine.Text.Numbers.{parse_usize}
use strobengine.Text.Compare.{eq_ignore_ascii_case}
use strobengine.Stomp.Escape.{
  ok, decode_header-encode_header, encode_header, decode_header, missing_header_value,
  trailing_escape, invalid_escape, missing_null,
}
use strobengine.Stomp.Frame.{Frame, header_in, content_length, header_lines, header_line, encode}
use strobengine.Stomp.Decoder.{
  Decoder, out_of_fuel, frame, error, incomplete, panics, unread, compact, skip_eols,
  skip_heartbeats, strip_cr, strip_eol, find, decode_pair, read_line, read_headers, sized_body,
  open_body, read_body, read_frame, next_frame_in, next_frame,
}
use strobengine.Stomp.RoundTrip.{IsSendable, next_frame-encode}
use strobengine.Stomp.Progress.{next_frame-ne-out_of_fuel}

abbrev codes : String → Bytes
codes String.[] = []
codes (String.◌∷◌ c s) = code c ∷ codes s

-- A decoder that has received `bytes`.
abbrev received : Bytes → Decoder
received bytes = record { buf = bytes; pos = 0 }

abbrev order : Frame
order = record {
  command = codes "SEND";
  headers = (codes "destination", codes "/queue/a:b") ∷ [];
  body = codes "hello";
}

encode-order : encode order ≡ codes "SEND\ndestination:/queue/a\\cb\n\nhello" ++ (0 ∷ [])
unfolding encode header_lines header_line encode_header
encode-order = refl

order-IsSendable : IsSendable order
unfolding is_utf8 trim content_length header_in eq_ignore_ascii_case strip_eol
order-IsSendable = record {
  command_text = refl;
  command_trimmed = refl;
  command_ne_nil = λ e. cc;
  command_line = omega arith;
  header_text = ((refl, refl), tt);
  body_length = inr (refl, omega arith, refl);
}

next_frame-encode_example :
    (d' : Decoder) × (next_frame (received (encode order ++ codes "CONN")) ≡ (frame order, d'))
    × (unread d' ≡ codes "CONN")
next_frame-encode_example =
    next_frame-encode (received (encode order ++ codes "CONN")) order (codes "CONN") refl
      (rw encode-order (omega arith)) order-IsSendable

-- The tests of the source.
errors :
    ((next_frame (received (codes "SEND\nbroken-header\n\n" ++ (0 ∷ [])))).0
      ≡ error missing_header_value)
    × ((next_frame (received (codes "SEND\nx:value\\\n\n" ++ (0 ∷ [])))).0 ≡ error trailing_escape)
    × ((next_frame (received (codes "SEND\nx:va\\zlue\n\n" ++ (0 ∷ [])))).0 ≡ error invalid_escape)
    × ((next_frame (received (codes "SEND\ncontent-length:5\n\nhelloX"))).0 ≡ error missing_null)
    × ((next_frame (received (codes "SEND\n\npartial body"))).0 ≡ incomplete)
unfolding next_frame next_frame_in skip_heartbeats skip_eols compact read_frame strip_cr find
    read_headers read_line decode_pair decode_header read_body sized_body open_body strip_eol trim
    is_utf8 header_in eq_ignore_ascii_case parse_usize
errors = (refl, refl, refl, refl, refl)

-- Two frames in one read, the second with a content length just below 2 ^ 64.
abbrev hostile : Bytes
hostile = codes "A\n\n" ++ (0 ∷ codes "B\ncontent-length:18446744073709551576\n\n")

hostile_panics : (next_frame (next_frame (received hostile)).1).0 ≡ panics
unfolding next_frame next_frame_in skip_heartbeats skip_eols compact read_frame strip_cr find
    read_headers read_line decode_pair decode_header read_body sized_body open_body strip_eol trim
    is_utf8 header_in eq_ignore_ascii_case parse_usize
hostile_panics = refl

next_frame-ne-out_of_fuel_example : (next_frame (received hostile)).0 ≢ out_of_fuel
next_frame-ne-out_of_fuel_example = next_frame-ne-out_of_fuel (received hostile)

decode_header-encode_header_example :
    decode_header (encode_header (codes "a:b\\c")) ≡ ok (codes "a:b\\c")
unfolding is_utf8
decode_header-encode_header_example = decode_header-encode_header (codes "a:b\\c") refl
