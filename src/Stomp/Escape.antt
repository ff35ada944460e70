-- ===== src/Stomp/Escape.antt =====
-- Header escaping of src/protocols/stomp_codec.rs: `encode_header`, `decode_header`, `CodecError`.
use strobengine.Prelude.{
  ℕ, ◌≡◌, refl, ◌≢◌, ◌⊎◌, inl, inr, true, [], ◌∷◌, ◌++◌, arith, ◌==◌, if◌then◌else◌, All,
}
use strobengine.Text.Utf8.{Bytes, is_utf8, expand, KeepsUtf8, is_utf8-expand}

pub data CodecError : Type 0 where
  utf8 missing_header_value trailing_escape invalid_escape missing_null : CodecError

pub data Result (A : Type 0) : Type 0 where
  ok : A → Result A
  err : CodecError → Result A

infixl 5 ◌>>=◌
abbrev pub ◌>>=◌ : {A B : Type 0} → Result A → (A → Result B) → Result B
ok a >>= f = f a
err e >>= f = err e

unfoldable pub encode_byte : ℕ → Bytes
encode_byte b =
    if b == b'\n'
    then b'\\' ∷ b'n' ∷ []
    else if b == b'\r'
    then b'\\' ∷ b'r' ∷ []
    else if b == b':'
    then b'\\' ∷ b'c' ∷ []
    else if b == b'\\'
    then b'\\' ∷ b'\\' ∷ []
    else b ∷ []

abbrev prepend : ℕ → Result Bytes → Result Bytes
prepend b (ok bs) = ok (b ∷ bs)
prepend b (err e) = err e

-- What `encode_header` appends to its output.
unfoldable pub encode_header : Bytes → Bytes
unfolding encode_byte
encode_header value = expand encode_byte value

-- The loop of `decode_header`. The source walks characters; the bytes that it tests for are
-- ASCII, which in UTF-8 are no part of another character.
unescape : Bytes → Result Bytes
unescape [] = ok []
unescape (b ∷ []) = if b == b'\\' then err trailing_escape else ok (b ∷ [])
unescape (b ∷ c ∷ rest) =
    let plain = prepend b (unescape (c ∷ rest)) in
    let escaped = unescape rest in
    if b == b'\\'
    then (if c == b'n'
        then prepend b'\n' escaped
        else if c == b'r'
        then prepend b'\r' escaped
        else if c == b'c'
        then prepend b':' escaped
        else if c == b'\\'
        then prepend b'\\' escaped
        else err invalid_escape)
    else plain

unfoldable pub decode_header : Bytes → Result Bytes
unfolding unescape
decode_header bytes = if is_utf8 bytes then unescape bytes else err utf8

unescape-plain :
    (b : ℕ) (rest : Bytes) → b ≢ b'\\' → unescape (b ∷ rest) ≡ prepend b (unescape rest)
unfolding unescape
unescape-plain b [] h = ground arith
unescape-plain b (c ∷ rest) h = ground arith

encode_byte-cases :
    (b : ℕ)
    → ((b ≡ b'\n') × (encode_byte b ≡ b'\\' ∷ b'n' ∷ []))
      ⊎ (((b ≡ b'\r') × (encode_byte b ≡ b'\\' ∷ b'r' ∷ []))
          ⊎ (((b ≡ b':') × (encode_byte b ≡ b'\\' ∷ b'c' ∷ []))
              ⊎ (((b ≡ b'\\') × (encode_byte b ≡ b'\\' ∷ b'\\' ∷ []))
                  ⊎ ((b ≢ b'\\') × (encode_byte b ≡ b ∷ [])))))
unfolding encode_byte
encode_byte-cases b = ground arith

unescape-encode_byte :
    (b : ℕ) (rest : Bytes) → unescape (encode_byte b ++ rest) ≡ prepend b (unescape rest)
unescape-encode_byte b rest = elim (encode_byte-cases b) [
  | inl (e, f) ↦ rw f (rw e (unfold unescape in refl))
  | inr (inl (e, f)) ↦ rw f (rw e (unfold unescape in refl))
  | inr (inr (inl (e, f))) ↦ rw f (rw e (unfold unescape in refl))
  | inr (inr (inr (inl (e, f)))) ↦ rw f (rw e (unfold unescape in refl))
  | inr (inr (inr (inr (h, f)))) ↦ rw f (unescape-plain b rest h)
]

unescape-encode_header : (value : Bytes) → unescape (encode_header value) ≡ ok value
unfolding encode_header
unescape-encode_header [] = unfold unescape in refl
unescape-encode_header (b ∷ bs) =
    rw (unescape-encode_byte b (encode_header bs), unescape-encode_header bs) refl

encode_byte-KeepsUtf8 : KeepsUtf8 encode_byte
unfolding encode_byte
encode_byte-KeepsUtf8 b = ground arith

pub encode_header-is_utf8 :
    (value : Bytes) → is_utf8 value ≡ true → is_utf8 (encode_header value) ≡ true
unfolding encode_header
encode_header-is_utf8 value v = is_utf8-expand encode_byte encode_byte-KeepsUtf8 value v

-- Decoding an escaped header component gives the component back, whatever characters it holds.
pub decode_header-encode_header :
    (value : Bytes) → is_utf8 value ≡ true → decode_header (encode_header value) ≡ ok value
unfolding decode_header
decode_header-encode_header value v =
    rw (encode_header-is_utf8 value v) (unescape-encode_header value)

-- Bytes that may not stand in an escaped component: they delimit lines and headers.
abbrev pub IsComponentByte : ℕ → Type 0
IsComponentByte b = (b ≢ b'\n') × (b ≢ b'\r') × (b ≢ b':')

pub encode_header-IsComponentByte : (value : Bytes) → All IsComponentByte (encode_header value)
unfolding encode_header
encode_header-IsComponentByte [] = tt
encode_header-IsComponentByte (b ∷ bs) =
    unfold encode_byte in ground (arith, encode_header-IsComponentByte bs)
