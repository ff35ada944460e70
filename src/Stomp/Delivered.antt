-- ===== src/Stomp/Delivered.antt =====
-- What `produce` of src/protocols/stomp.rs writes, as the broker's decoder reads it.
use strobengine.Prelude.{
  ℕ, ◌<◌, ◌≡◌, refl, ◌∙◌, ap, inl, inr, true, false, [], ◌∷◌, Option, none, some, arith, length,
  All, Bool-cases,
}
use strobengine.Prelude.Words.{u64_mod}
use strobengine.Text.Utf8.{Bytes, is_utf8, is_utf8-ascii}
use strobengine.Text.Trim.{trim, IsGraphic}
use strobengine.Text.Print.{decimal, decimal-IsGraphic, parse_usize-decimal}
use strobengine.Text.Compare.{eq_ignore_ascii_case, eq_ignore_ascii_case_same}
use strobengine.Chaos.{
  ascii, ChaosFault, latency_spike, corrupted_payload, metadata_corruption, connection_drop,
}
use strobengine.Stomp.Frame.{
  Frame, Headers, header_in, set_in, set_header, header, content_length, content_length_name,
  parse_length, header_in-set_in,
}
use strobengine.Stomp.Lines.{IsUtf8Pair}
use strobengine.Stomp.RoundTrip.{IsSendable}
use strobengine.Stomp.Engine.{with_headers, with_chaos, with_receipt}

set_in-All :
    (hs : Headers) (name value : Bytes)
    → IsUtf8Pair (name, value)
    → All IsUtf8Pair hs
    → All IsUtf8Pair (set_in hs name value)
unfolding set_in
set_in-All [] name value p h = (p, tt)
set_in-All ((k, v) ∷ hs) name value p h = elim (Bool-cases (eq_ignore_ascii_case k name)) [
  | inl t ↦ rw (t, set_in) ((h.0.0, p.1), h.1)
  | inr t ↦ rw (t, set_in) (h.0, set_in-All hs name value p h.1)
]

-- The other names keep their values.
header_in-set_other :
    (hs : Headers) (name other value : Bytes)
    → eq_ignore_ascii_case name other ≡ false
    → header_in (set_in hs name value) other ≡ header_in hs other
unfolding header_in set_in
header_in-set_other [] name other value e = rw e refl
header_in-set_other ((k, v) ∷ hs) name other value e =
    elim (Bool-cases (eq_ignore_ascii_case k name)) [
      | inl t ↦ rw (t, set_in, header_in, eq_ignore_ascii_case_same k name other t, e) refl
      | inr t ↦ rw (t, set_in, header_in, header_in-set_other hs name other value e) refl
    ]

pub with_headers-All :
    (f : Frame) (hs : Headers)
    → All IsUtf8Pair hs
    → All IsUtf8Pair f.headers
    → All IsUtf8Pair (with_headers f hs).headers
unfolding set_header
with_headers-All f [] h k = k
with_headers-All f ((name, value) ∷ hs) h k =
    with_headers-All (set_header f name value) hs h.1 (set_in-All f.headers name value h.0 k)

pub with_headers-command : (f : Frame) (hs : Headers) → (with_headers f hs).command ≡ f.command
unfolding set_header
with_headers-command f [] = refl
with_headers-command f ((name, value) ∷ hs) = with_headers-command (set_header f name value) hs

-- A `SEND` frame whose headers are text.
abbrev pub IsSend : Frame → Type 0
IsSend f = (f.command ≡ ascii "SEND") × All IsUtf8Pair f.headers

pub with_chaos-IsSend :
    (f : Frame) (fault : Option ChaosFault) → IsSend f → IsSend (with_chaos f fault)
unfolding set_header is_utf8
with_chaos-IsSend f (some metadata_corruption) h =
    (h.0, set_in-All f.headers (ascii "x-chaos") (ascii "metadata-corruption") (refl, refl) h.1)
with_chaos-IsSend f none h = h
with_chaos-IsSend f (some (latency_spike n)) h = h
with_chaos-IsSend f (some corrupted_payload) h = h
with_chaos-IsSend f (some connection_drop) h = h

pub ascii_text : (bs : Bytes) → All IsGraphic bs → All (λ b. b < 0x80) bs
ascii_text [] h = tt
ascii_text (b ∷ bs) h = (h.0.1, ascii_text bs h.1)

decimal-text : (n : ℕ) → is_utf8 (decimal n) ≡ true
decimal-text n = is_utf8-ascii (decimal n) (ascii_text (decimal n) (decimal-IsGraphic n))

-- The sizes and receipts that are set last.
unfoldable pub finished : Frame → Bytes → Option Bytes → Frame
finished f body id =
    with_receipt
      (record (set_header f (ascii "content-length") (decimal (length body))) { body = body }) id

same_name : eq_ignore_ascii_case content_length_name content_length_name ≡ true
unfolding eq_ignore_ascii_case
same_name = refl

other_name : eq_ignore_ascii_case (ascii "receipt") content_length_name ≡ false
unfolding eq_ignore_ascii_case
other_name = refl

pub finished-length :
    (f : Frame) (body : Bytes) (id : Option Bytes)
    → length body < u64_mod
    → content_length (finished f body id) ≡ some (length body)
unfolding content_length set_header header finished
finished-length f body none b =
    ap parse_length
      (header_in-set_in f.headers content_length_name (decimal (length body)) same_name)
    ∙ parse_usize-decimal (length body) b
finished-length f body (some id) b =
    ap parse_length (
      header_in-set_other (set_in f.headers content_length_name (decimal (length body)))
        (ascii "receipt") content_length_name id other_name
      ∙ header_in-set_in f.headers content_length_name (decimal (length body)) same_name)
    ∙ parse_usize-decimal (length body) b

-- A receipt that is text, or none.
abbrev pub IsTextOption : Option Bytes → Type 0
IsTextOption none = Unit
IsTextOption (some id) = is_utf8 id ≡ true

pub finished-IsSend :
    (f : Frame) (body : Bytes) (id : Option Bytes)
    → IsTextOption id
    → IsSend f
    → IsSend (finished f body id) × ((finished f body id).body ≡ body)
unfolding set_header finished is_utf8
finished-IsSend f body none t h = (
  (
    h.0,
    set_in-All f.headers content_length_name (decimal (length body))
        (refl, decimal-text (length body)) h.1,
  ),
  refl,
)
finished-IsSend f body (some id) t h = (
  (
    h.0,
    set_in-All (set_in f.headers content_length_name (decimal (length body))) (ascii "receipt") id
        (refl, t)
        (set_in-All f.headers content_length_name (decimal (length body))
          (refl, decimal-text (length body)) h.1),
  ),
  refl,
)

pub send-IsSendable :
    (f : Frame) → IsSend f → content_length f ≡ some (length f.body) → IsSendable f
unfolding is_utf8 trim
send-IsSendable f h e = record {
  command_text = rw h.0 refl;
  command_trimmed = rw h.0 refl;
  command_ne_nil = rw h.0 (λ x. cc);
  command_line = rw h.0 (omega arith);
  header_text = h.1;
  body_length = inl e;
}
