-- ===== src/Stomp/RoundTrip.antt =====
-- `encode` and `next_frame` of src/protocols/stomp_codec.rs against one another.
use strobengine.Prelude.{
  ℕ, ◌+◌, ◌-◌, ◌≤◌, ◌<◌, ◌≡◌, refl, ap, ◌∙◌, ◌≢◌, ◌⊎◌, inl, inr, true, false, is_empty, [], ◌∷◌,
  ◌++◌, some, none, arith, All, length, drop, get_elem?, append_assoc, length-append, take-append,
  drop-suc_append, drop-drop, length-drop, get_elem?-drop, get_elem?-append_length, ltb,
}
use native.Mathlib.Nat.{add_assoc}
use native.Mathlib.Numerals.{add-one}
use strobengine.Prelude.Words.{u64_mod, add64}
use strobengine.Text.Utf8.{Bytes, is_utf8}
use strobengine.Text.Trim.{trim}
use strobengine.Stomp.Frame.{Frame, Headers, content_length, header_lines, encode}
use strobengine.Stomp.Decoder.{
  Decoder, frame, done, unread, compact, skip_eols, skip_heartbeats, strip_eol, sized_body,
  open_body, read_body, read_frame, next_frame_in, next_frame,
}
use strobengine.Stomp.Lines.{
  find-append, strip_cr_self, IsUtf8Pair, read_headers-header_lines, length-header_line,
}

-- A frame that the wire format can carry: the command is a line of trimmed text, the headers are
-- text, and the body has the announced length, or none is announced and the body has no NULL and
-- ends with no line end.
pub record IsSendable (f : Frame) : Type 0 where
  pub command_text : is_utf8 f.command ≡ true
  pub command_trimmed : trim f.command ≡ f.command
  pub command_ne_nil : f.command ≢ []
  pub command_line : All (λ b. (b ≢ b'\n') × (b ≢ b'\r')) f.command
  pub header_text : All IsUtf8Pair f.headers
  pub body_length :
      (content_length f ≡ some (length f.body))
      ⊎ ((content_length f ≡ none) × All (λ b. b ≢ 0) f.body × (strip_eol f.body ≡ f.body))

pub unread-compact : (d : Decoder) → unread (compact d) ≡ unread d
unfolding compact
unread-compact d = ground arith

-- No line end at the cursor: nothing is skipped.
skip_heartbeats_none :
    (d : Decoder) (b : ℕ) (bs : Bytes)
    → unread d ≡ b ∷ bs
    → b ≢ b'\n'
    → b ≢ b'\r'
    → skip_heartbeats d ≡ compact d
unfolding skip_heartbeats
skip_heartbeats_none d b bs e n r = rw e (unfold skip_eols in ground arith)

ltb_irrefl : (a b : ℕ) → ltb (a + b) a ≡ false
ltb_irrefl a b = ground arith

add-sub_self : (a b : ℕ) → a + b - a ≡ b
add-sub_self a b = omega arith

-- What follows `xs` and one more byte at `cursor`.
drop_past :
    (cursor : ℕ) (buf xs : Bytes) (y : ℕ) (rest : Bytes)
    → drop cursor buf ≡ xs ++ (y ∷ rest)
    → drop (cursor + length xs + 1) buf ≡ rest
drop_past cursor buf xs y rest e = rw (add_assoc, ← drop-drop, e) (drop-suc_append xs y rest)

null_behind :
    (cursor : ℕ) (buf body rest : Bytes)
    → drop cursor buf ≡ body ++ (0 ∷ rest)
    → get_elem? buf (cursor + length body) ≡ some 0
null_behind cursor buf body rest e = rw (← get_elem?-drop, e) (get_elem?-append_length body 0 rest)

end_in_buffer :
    (cursor : ℕ) (buf body rest : Bytes)
    → drop cursor buf ≡ body ++ (0 ∷ rest)
    → cursor + length body < length buf
end_in_buffer cursor buf body rest e =
    omega (arith, ap length e, length-drop cursor buf, length-append body (0 ∷ rest))

-- The body of the announced length.
sized_body-append :
    (d : Decoder) (command : Bytes) (headers : Headers) (cursor : ℕ) (body rest : Bytes)
    → drop cursor d.buf ≡ body ++ (0 ∷ rest)
    → length d.buf < u64_mod
    → (d' : Decoder) × (sized_body d command headers cursor (length body)
        ≡ (frame (record { command = command; headers = headers; body = body }), d'))
      × (unread d' ≡ rest)
sized_body-append d command headers cursor body rest e h =
    let within = end_in_buffer cursor d.buf body rest e in
    let total : add64 cursor (length body) ≡ cursor + length body = omega arith in
    let d' = record d { pos = cursor + length body + 1 } in
    (
      compact d',
      unfold sized_body in
          rw (total, null_behind cursor d.buf body rest e, sized_body)
            (rw
              (total, ltb_irrefl cursor (length body), add-sub_self, e, take-append body (0 ∷ rest))
              refl),
      unread-compact d' ∙ drop_past cursor d.buf body 0 rest e,
    )

-- The body that ends at the first NULL.
open_body-append :
    (d : Decoder) (command : Bytes) (headers : Headers) (cursor : ℕ) (body rest : Bytes)
    → drop cursor d.buf ≡ body ++ (0 ∷ rest)
    → All (λ b. b ≢ 0) body
    → strip_eol body ≡ body
    → (d' : Decoder) × (open_body d command headers cursor
        ≡ (frame (record { command = command; headers = headers; body = body }), d'))
      × (unread d' ≡ rest)
open_body-append d command headers cursor body rest e z s =
    let d' = record d { pos = cursor + length body + 1 } in
    (
      compact d',
      unfold open_body in
          rw (e, find-append 0 body rest z, e, take-append body (0 ∷ rest), s, open_body),
      unread-compact d' ∙ drop_past cursor d.buf body 0 rest e,
    )

-- Behind a header block the body is read back, and the cursor stops behind its NULL.
read_body-append :
    (d : Decoder) (f : Frame) (cursor : ℕ) (rest : Bytes)
    → drop cursor d.buf ≡ f.body ++ (0 ∷ rest)
    → length d.buf < u64_mod
    → IsSendable f
    → (d' : Decoder) × (read_body d f.command (done f.headers cursor) ≡ (frame f, d'))
      × (unread d' ≡ rest)
unfolding read_body content_length
read_body-append d f cursor rest e h v = elim v.body_length [
  | inl sized ↦
      let (d', p, q) = sized_body-append d f.command f.headers cursor f.body rest e h in
      (d', rw (sized, read_body) p, q)
  | inr (unsized, z, s) ↦
      let (d', p, q) = open_body-append d f.command f.headers cursor f.body rest e z s in
      (d', rw (unsized, read_body) p, q)
]

All-left : (P Q : ℕ → Type 0) (xs : Bytes) → All (λ b. P b × Q b) xs → All P xs
All-left P Q [] h = tt
All-left P Q (x ∷ xs) h = (h.0.0, All-left P Q xs h.1)

All-right : (P Q : ℕ → Type 0) (xs : Bytes) → All (λ b. P b × Q b) xs → All Q xs
All-right P Q [] h = tt
All-right P Q (x ∷ xs) h = (h.0.1, All-right P Q xs h.1)

-- What stands behind the command line of a written frame.
abbrev block : Frame → Bytes → Bytes
block f rest = header_lines f.headers ++ (b'\n' ∷ (f.body ++ (0 ∷ rest)))

encode-append : (f : Frame) (rest : Bytes) → encode f ++ rest ≡ f.command ++ (b'\n' ∷ block f rest)
unfolding encode
encode-append f rest = simp append_assoc

length-header_lines_le : (hs : Headers) → length hs ≤ length (header_lines hs)
unfolding header_lines
length-header_lines_le [] = omega arith
length-header_lines_le ((name, value) ∷ hs) =
    omega (arith, length-header_lines_le hs, length-header_line name value (header_lines hs))

read_frame-encode :
    (d : Decoder) (f : Frame) (rest : Bytes)
    → unread d ≡ f.command ++ (b'\n' ∷ block f rest)
    → length d.buf < u64_mod
    → IsSendable f
    → (d' : Decoder) × (read_frame d (length f.command) ≡ (frame f, d')) × (unread d' ≡ rest)
unfolding read_frame
read_frame-encode d f rest e h v =
    let behind = d.pos + length f.command + 1 in
    let cursor = behind + (length (header_lines f.headers) + 1) in
    let body_at : drop cursor d.buf ≡ f.body ++ (0 ∷ rest) = rw (← add_assoc) (
      drop_past behind d.buf (header_lines f.headers) b'\n' (f.body ++ (0 ∷ rest))
        (drop_past d.pos d.buf f.command b'\n' (block f rest) e)) in
    let no_cr = All-right (λ b. b ≢ b'\n') (λ b. b ≢ b'\r') f.command v.command_line in
    let (d', p, q) = read_body-append d f cursor rest body_at h v in
    (
      d',
      rw
          (
            e,
            take-append f.command (b'\n' ∷ block f rest),
            strip_cr_self f.command no_cr,
            v.command_text,
            v.command_trimmed,
            drop-suc_append f.command b'\n' (block f rest),
            read_headers-header_lines f.headers (length (block f rest) + 1) (f.body ++ (0 ∷ rest))
                behind [] v.header_text
                (omega (
                  arith,
                  length-header_lines_le f.headers,
                  length-append (header_lines f.headers) (b'\n' ∷ (f.body ++ (0 ∷ rest))),
                )),
          )
          p,
      q,
    )

is_empty-ne_nil : (xs : Bytes) → xs ≢ [] → is_empty xs ≡ false
is_empty-ne_nil [] h = absurd (h refl)
is_empty-ne_nil (x ∷ xs) h = refl

-- Nothing is skipped in front of a command.
skip_heartbeats-command :
    (command : Bytes) (d : Decoder) (rest : Bytes)
    → command ≢ []
    → All (λ b. (b ≢ b'\n') × (b ≢ b'\r')) command
    → unread d ≡ command ++ (b'\n' ∷ rest)
    → skip_heartbeats d ≡ compact d
skip_heartbeats-command [] d rest h a e = absurd (h refl)
skip_heartbeats-command (b ∷ bs) d rest h a e = skip_heartbeats_none d b _ e a.0.0 a.0.1

length-compact_le : (d : Decoder) → length (compact d).buf ≤ length d.buf
unfolding compact
length-compact_le d = ground (arith, length-drop d.pos d.buf)

-- `next_frame` goes straight to the command line.
next_frame-command :
    (d : Decoder) (f : Frame) (rest : Bytes)
    → unread d ≡ f.command ++ (b'\n' ∷ rest)
    → IsSendable f
    → next_frame d ≡ read_frame (compact d) (length f.command)
unfolding next_frame
next_frame-command d f rest e v =
    let at : unread (compact d) ≡ f.command ++ (b'\n' ∷ rest) = unread-compact d ∙ e in
    let no_lf = All-left (λ b. b ≢ b'\n') (λ b. b ≢ b'\r') f.command v.command_line in
    let no_cr = All-right (λ b. b ≢ b'\n') (λ b. b ≢ b'\r') f.command v.command_line in
    let skip = skip_heartbeats-command f.command d rest v.command_ne_nil v.command_line e in
    rw add-one (
      unfold next_frame_in in
      rw
        (
          skip,
          at,
          find-append b'\n' f.command rest no_lf,
          skip,
          at,
          take-append f.command (b'\n' ∷ rest),
          strip_cr_self f.command no_cr,
          is_empty-ne_nil f.command v.command_ne_nil,
          next_frame_in,
        )
        (ap (λ s. read_frame s (length f.command)) skip))

-- A written frame at the cursor is read back, whatever follows it, and what follows is left: the
-- buffer may hold earlier bytes, and its length is a 64-bit number.
pub next_frame-encode :
    (d : Decoder) (f : Frame) (rest : Bytes)
    → unread d ≡ encode f ++ rest
    → length d.buf < u64_mod
    → IsSendable f
    → (d' : Decoder) × (next_frame d ≡ (frame f, d')) × (unread d' ≡ rest)
next_frame-encode d f rest e h v =
    let e' : unread d ≡ f.command ++ (b'\n' ∷ block f rest) = e ∙ encode-append f rest in
    let at = unread-compact d ∙ e' in
    let (d', p, q) =
      read_frame-encode (compact d) f rest at (omega (arith, length-compact_le d)) v in
    (d', next_frame-command d f (block f rest) e' v ∙ p, q)
