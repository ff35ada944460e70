-- ===== src/Text/Utf8.antt =====
-- `str::from_utf8` of the standard library: the byte sequences that it accepts, by the table of
-- well-formed UTF-8 (RFC 3629). A `String` is the list of its bytes.
use strobengine.Prelude.{
  ℕ, subst, append-nil, ◌<◌, ◌≡◌, refl, ◌⊎◌, inl, inr, Bool, true, false, List, [], ◌∷◌, ◌++◌,
  Option, none, some, arith, leb, ltb, ◌==◌, ◌&&◌, if◌then◌else◌, All, Option-cases,
}

abbrev pub Bytes : Type 0
Bytes = List ℕ

-- What may follow the bytes read: a new character, or the rest of one.
pub data Utf8State : Type 0 where
  start one two three after_e0 after_ed after_f0 after_f4 : Utf8State

abbrev is_between : ℕ → ℕ → ℕ → Bool
is_between lo hi b = leb lo b && leb b hi

lead_byte : ℕ → Option Utf8State
lead_byte b =
    if ltb b 0x80
    then some start
    else if is_between 0xC2 0xDF b
    then some one
    else if b == 0xE0
    then some after_e0
    else if b == 0xED
    then some after_ed
    else if is_between 0xE1 0xEF b
    then some two
    else if b == 0xF0
    then some after_f0
    else if is_between 0xF1 0xF3 b
    then some three
    else if b == 0xF4
    then some after_f4
    else none

tail_byte : ℕ → ℕ → Utf8State → ℕ → Option Utf8State
tail_byte lo hi next b = if is_between lo hi b then some next else none

utf8_step : Utf8State → ℕ → Option Utf8State
unfolding lead_byte tail_byte
utf8_step start b = lead_byte b
utf8_step one b = tail_byte 0x80 0xBF start b
utf8_step two b = tail_byte 0x80 0xBF one b
utf8_step three b = tail_byte 0x80 0xBF two b
utf8_step after_e0 b = tail_byte 0xA0 0xBF one b
utf8_step after_ed b = tail_byte 0x80 0x9F one b
utf8_step after_f0 b = tail_byte 0x90 0xBF two b
utf8_step after_f4 b = tail_byte 0x80 0x8F two b

abbrev at_start : Utf8State → Bool
at_start start = true
at_start _ = false

is_utf8_from : Utf8State → Bytes → Bool
is_utf8_from s [] = at_start s
is_utf8_from s (b ∷ bs) = elim (utf8_step s b) [ none ↦ false | some t ↦ is_utf8_from t bs ]

unfoldable pub is_utf8 : Bytes → Bool
unfolding is_utf8_from utf8_step
is_utf8 bs = is_utf8_from start bs

-- An ASCII byte in valid text is a character of its own.
ascii_step :
    (s : Utf8State) (b : ℕ) (bs : Bytes)
    → b < 0x80
    → is_utf8_from s (b ∷ bs) ≡ true
    → (s ≡ start) × (is_utf8_from start bs ≡ true)
unfolding is_utf8_from utf8_step
ascii_step start b bs h v = ground arith
ascii_step s b bs h v = ground arith

ascii_run :
    (p rest : Bytes)
    → All (λ b. b < 0x80) p
    → is_utf8_from start (p ++ rest) ≡ is_utf8_from start rest
unfolding is_utf8_from utf8_step
ascii_run [] rest h = refl
ascii_run (b ∷ p) rest h = ground (arith, ascii_run p rest h.1)

pub is_utf8-ascii : (p : Bytes) → All (λ b. b < 0x80) p → is_utf8 p ≡ true
unfolding is_utf8
is_utf8-ascii p h = subst (λ q. is_utf8_from start q ≡ true) (append-nil p) (ascii_run p [] h)

is_utf8_from-step :
    (s : Utf8State) (b : ℕ) (bs cs : Bytes)
    → ((t : Utf8State) → is_utf8_from t bs ≡ true → is_utf8_from t cs ≡ true)
    → is_utf8_from s (b ∷ bs) ≡ true
    → is_utf8_from s (b ∷ cs) ≡ true
unfolding is_utf8_from
is_utf8_from-step s b bs cs h v = elim (Option-cases (utf8_step s b)) [
  | inl e ↦ cc (rw (e, is_utf8_from) at v)
  | inr (t, e) ↦ rw (e, is_utf8_from) (h t (rw (e, is_utf8_from) at v))
]

-- Bytes outside ASCII stay, and each ASCII byte is replaced by some ASCII bytes.
abbrev pub KeepsUtf8 : (ℕ → Bytes) → Type 0
KeepsUtf8 f = (b : ℕ) → (f b ≡ b ∷ []) ⊎ ((b < 0x80) × All (λ c. c < 0x80) (f b))

abbrev pub expand : (ℕ → Bytes) → Bytes → Bytes
expand f [] = []
expand f (b ∷ bs) = f b ++ expand f bs

is_utf8_from-expand :
    (f : ℕ → Bytes)
    → KeepsUtf8 f
    → (bs : Bytes) (s : Utf8State) → is_utf8_from s bs ≡ true
    → is_utf8_from s (expand f bs) ≡ true
is_utf8_from-expand f k [] s v = v
is_utf8_from-expand f k (b ∷ bs) s v = elim (k b) [
  | inl e ↦ rw e (is_utf8_from-step s b bs (expand f bs) (is_utf8_from-expand f k bs) v)
  | inr (h, asc) ↦
      let (e, v') = ascii_step s b bs h v in
      rw (e, ascii_run (f b) (expand f bs) asc) (is_utf8_from-expand f k bs start v')
]

-- Replacing single ASCII bytes by ASCII text keeps a text valid.
pub is_utf8-expand :
    (f : ℕ → Bytes) → KeepsUtf8 f → (bs : Bytes) → is_utf8 bs ≡ true → is_utf8 (expand f bs) ≡ true
unfolding is_utf8
is_utf8-expand f k bs v = is_utf8_from-expand f k bs start v
