-- ===== src/Stomp/Lines.antt =====
-- How the decoder's scans read what `encode` of src/protocols/stomp_codec.rs writes.
use strobengine.Prelude.{
  ℕ, zero, suc, ◌+◌, ◌<◌, ◌≡◌, refl, ap, ◌∙◌, ◌≢◌, true, false, is_empty, [], ◌∷◌, ◌++◌, some,
  arith, All, length, append_assoc, append-nil, take-append, drop-suc_append, length-append,
}
use strobengine.Text.Utf8.{Bytes, is_utf8}
use strobengine.Stomp.Escape.{
  encode_header, IsComponentByte, encode_header-IsComponentByte, decode_header-encode_header, ok,
}
use strobengine.Stomp.Frame.{Headers, header_line, header_lines}
use strobengine.Stomp.Decoder.{strip_cr, find, pair, done, read_line, decode_pair, read_headers}

All-append : (P : ℕ → Type 0) (xs ys : Bytes) → All P xs → All P ys → All P (xs ++ ys)
All-append P [] ys hx hy = hy
All-append P (x ∷ xs) ys hx hy = (hx.0, All-append P xs ys hx.1 hy)

All-map : (P Q : ℕ → Type 0) → ((b : ℕ) → P b → Q b) → (xs : Bytes) → All P xs → All Q xs
All-map P Q f [] h = tt
All-map P Q f (x ∷ xs) h = (f x h.0, All-map P Q f xs h.1)

-- The first `n` behind bytes that are not `n`.
pub find-append :
    (n : ℕ) (xs ys : Bytes) → All (λ b. b ≢ n) xs → find (xs ++ n ∷ ys) n ≡ some (length xs)
unfolding find
find-append n [] ys h = ground arith
find-append n (x ∷ xs) ys h = ground (arith, find-append n xs ys h.1)

pub strip_cr_self : (xs : Bytes) → All (λ b. b ≢ b'\r') xs → strip_cr xs ≡ xs
unfolding strip_cr
strip_cr_self [] h = refl
strip_cr_self (b ∷ []) h = ground arith
strip_cr_self (b ∷ c ∷ rest) h = ap (◌∷◌ b) (strip_cr_self (c ∷ rest) h.1)

-- A header line without its line feed.
abbrev pub line : Bytes → Bytes → Bytes
line name value = encode_header name ++ (b':' ∷ encode_header value)

no_byte :
    (b : ℕ) (p : (c : ℕ) → IsComponentByte c → c ≢ b) (v : Bytes)
    → All (λ c. c ≢ b) (encode_header v)
no_byte b p v =
    All-map IsComponentByte (λ c. c ≢ b) p (encode_header v) (encode_header-IsComponentByte v)

line_no_byte :
    (b : ℕ) (p : (c : ℕ) → IsComponentByte c → c ≢ b)
    → b':' ≢ b
    → (name value : Bytes) → All (λ c. c ≢ b) (line name value)
line_no_byte b p h name value =
    All-append (λ c. c ≢ b) (encode_header name) _ (no_byte b p name) (h, no_byte b p value)

is_empty-middle : (xs : Bytes) (y : ℕ) (ys : Bytes) → is_empty (xs ++ (y ∷ ys)) ≡ false
is_empty-middle [] y ys = refl
is_empty-middle (x ∷ xs) y ys = refl

decode_pair-line :
    (name value : Bytes)
    → is_utf8 name ≡ true
    → is_utf8 value ≡ true
    → decode_pair (line name value) (length (encode_header name)) ≡ ok (name, value)
unfolding decode_pair
decode_pair-line name value n v = rw (
  take-append (encode_header name) (b':' ∷ encode_header value),
  drop-suc_append (encode_header name) b':' (encode_header value),
  decode_header-encode_header name n,
  decode_header-encode_header value v,
)

read_line-line :
    (name value : Bytes)
    → is_utf8 name ≡ true
    → is_utf8 value ≡ true
    → read_line (line name value) ≡ pair name value
unfolding read_line
read_line-line name value n v = rw (
  is_empty-middle (encode_header name) b':' (encode_header value),
  find-append b':' (encode_header name) (encode_header value) (no_byte b':' (λ c h. h.2) name),
  decode_pair-line name value n v,
)

header_line-append :
    (name value rest : Bytes)
    → header_line (name, value) ++ rest ≡ line name value ++ (b'\n' ∷ rest)
unfolding header_line
header_line-append name value rest = simp append_assoc

-- One round of the header loop over one written header.
read_headers-line :
    (fuel : ℕ) (name value rest : Bytes) (cursor : ℕ) (acc : Headers)
    → is_utf8 name ≡ true
    → is_utf8 value ≡ true
    → read_headers (suc fuel) (line name value ++ (b'\n' ∷ rest)) cursor acc
      ≡ read_headers fuel rest (cursor + length (line name value) + 1) (acc ++ (name, value) ∷ [])
unfolding read_headers
read_headers-line fuel name value rest cursor acc n v = rw (
  find-append b'\n' (line name value) rest (line_no_byte b'\n' (λ c h. h.0) (λ e. cc e) name value),
  take-append (line name value) (b'\n' ∷ rest),
  strip_cr_self (line name value) (line_no_byte b'\r' (λ c h. h.1) (λ e. cc e) name value),
  read_line-line name value n v,
  drop-suc_append (line name value) b'\n' rest,
  read_headers,
)

pub length-header_line :
    (name value rest : Bytes)
    → length (header_line (name, value) ++ rest) ≡ length (line name value) + 1 + length rest
length-header_line name value rest = omega (
  arith,
  ap length (header_line-append name value rest),
  length-append (line name value) (b'\n' ∷ rest),
)

abbrev pub IsUtf8Pair : Bytes × Bytes → Type 0
IsUtf8Pair (name, value) = (is_utf8 name ≡ true) × (is_utf8 value ≡ true)

-- The header loop reads back the whole written block and stops behind its blank line.
pub read_headers-header_lines :
    (hs : Headers) (fuel : ℕ) (rest : Bytes) (cursor : ℕ) (acc : Headers)
    → All IsUtf8Pair hs
    → length hs < fuel
    → read_headers fuel (header_lines hs ++ (b'\n' ∷ rest)) cursor acc
      ≡ done (acc ++ hs) (cursor + (length (header_lines hs) + 1))
unfolding header_lines
read_headers-header_lines hs zero rest cursor acc u h = elim h [ ]
read_headers-header_lines [] (suc fuel) rest cursor acc u h =
    unfold read_headers find strip_cr read_line in rw append-nil (ap (done acc) (omega arith))
read_headers-header_lines ((name, value) ∷ hs) (suc fuel) rest cursor acc u h =
    let tail = header_lines hs ++ (b'\n' ∷ rest) in
    ap (λ t. read_headers (suc fuel) t cursor acc)
      (append_assoc (header_line (name, value)) (header_lines hs) (b'\n' ∷ rest)
        ∙ header_line-append name value tail)
    ∙ read_headers-line fuel name value tail cursor acc u.0.0 u.0.1
    ∙ read_headers-header_lines hs fuel rest _ (acc ++ (name, value) ∷ []) u.1 (omega arith)
    ∙ rw append_assoc (
        ap (done (acc ++ (name, value) ∷ hs))
          (omega (arith, length-header_line name value (header_lines hs))))
