-- ===== src/Text/Trim.antt =====
-- `str::trim` of the standard library: the characters of Unicode's White_Space, in UTF-8.
use mathlib.Core.List.{reverse, reverse-cons, reverse-reverse}
use strobengine.Prelude.{
  ℕ, zero, suc, ◌<◌, Bool, [], ◌∷◌, ◌++◌, ◌≡◌, refl, arith, All, leb, ◌==◌, ◌&&◌, ◌||◌,
  if◌then◌else◌,
}
use strobengine.Text.Utf8.{Bytes}

abbrev is_ascii_space : ℕ → Bool
is_ascii_space b = (leb 9 b && leb b 13) || b == 32

-- U+0085, U+00A0
abbrev is_two_byte_space : ℕ → ℕ → Bool
is_two_byte_space a b = a == 0xC2 && (b == 0x85 || b == 0xA0)

-- U+1680, U+2000 to U+200A, U+2028, U+2029, U+202F, U+205F, U+3000
abbrev is_three_byte_space : ℕ → ℕ → ℕ → Bool
is_three_byte_space a b c =
    (a == 0xE1 && (b == 0x9A && c == 0x80))
    || ((a == 0xE2
          && ((b == 0x80 && ((leb 0x80 c && leb c 0x8A) || (c == 0xA8 || (c == 0xA9 || c == 0xAF))))
              || (b == 0x81 && c == 0x9F)))
        || (a == 0xE3 && (b == 0x80 && c == 0x80)))

-- How many bytes the white-space character at the front has; 0 if there is none.
leading_space : Bytes → ℕ
leading_space [] = 0
leading_space (a ∷ []) = if is_ascii_space a then 1 else 0
leading_space (a ∷ b ∷ []) = if is_ascii_space a then 1 else if is_two_byte_space a b then 2 else 0
leading_space (a ∷ b ∷ c ∷ r) =
    if is_ascii_space a
    then 1
    else if is_two_byte_space a b
    then 2
    else if is_three_byte_space a b c
    then 3
    else 0

-- The same at the end of a text that is given in reverse.
trailing_space : Bytes → ℕ
trailing_space [] = 0
trailing_space (a ∷ []) = if is_ascii_space a then 1 else 0
trailing_space (b ∷ a ∷ []) = if is_ascii_space b then 1 else if is_two_byte_space a b then 2 else 0
trailing_space (c ∷ b ∷ a ∷ r) =
    if is_ascii_space c
    then 1
    else if is_two_byte_space b c
    then 2
    else if is_three_byte_space a b c
    then 3
    else 0

-- Drops white space as `spaces` measures it; `skip` bytes of the current character are left.
trim_by : (Bytes → ℕ) → ℕ → Bytes → Bytes
trim_by spaces skip [] = []
trim_by spaces (suc skip) (b ∷ bs) = trim_by spaces skip bs
trim_by spaces zero (b ∷ bs) = elim (spaces (b ∷ bs)) [
  | zero ↦ b ∷ bs
  | suc skip ↦ trim_by spaces skip bs
]

unfoldable pub trim : Bytes → Bytes
unfolding trim_by leading_space trailing_space
trim bs = reverse (trim_by trailing_space 0 (reverse (trim_by leading_space 0 bs)))

-- A printing character of ASCII.
abbrev pub IsGraphic : ℕ → Type 0
IsGraphic b = (32 < b) × (b < 0x80)

leading_none : (bs : Bytes) → All IsGraphic bs → leading_space bs ≡ 0
unfolding leading_space
leading_none [] h = refl
leading_none (a ∷ []) h = ground arith
leading_none (a ∷ b ∷ []) h = ground arith
leading_none (a ∷ b ∷ c ∷ r) h = ground arith

trailing_none : (bs : Bytes) → All IsGraphic bs → trailing_space bs ≡ 0
unfolding trailing_space
trailing_none [] h = refl
trailing_none (a ∷ []) h = ground arith
trailing_none (b ∷ a ∷ []) h = ground arith
trailing_none (c ∷ b ∷ a ∷ r) h = ground arith

trim_by_none : (spaces : Bytes → ℕ) (bs : Bytes) → spaces bs ≡ 0 → trim_by spaces 0 bs ≡ bs
unfolding trim_by
trim_by_none spaces [] e = refl
trim_by_none spaces (b ∷ bs) e = rw (e, trim_by) refl

join_printing : (xs ys : Bytes) → All IsGraphic xs → All IsGraphic ys → All IsGraphic (xs ++ ys)
join_printing [] ys h k = k
join_printing (x ∷ xs) ys h k = (h.0, join_printing xs ys h.1 k)

reverse_printing : (xs : Bytes) → All IsGraphic xs → All IsGraphic (reverse xs)
reverse_printing [] h = tt
reverse_printing (x ∷ xs) h =
    rw (reverse-cons x xs) (join_printing (reverse xs) (x ∷ []) (reverse_printing xs h.1) (h.0, tt))

-- There is no white space in a text of such characters.
pub trim_self : (bs : Bytes) → All IsGraphic bs → trim bs ≡ bs
unfolding trim
trim_self bs h =
    rw
      (
        trim_by_none leading_space bs (leading_none bs h),
        trim_by_none trailing_space (reverse bs)
            (trailing_none (reverse bs) (reverse_printing bs h)),
      )
      (reverse-reverse bs)

trim_test :
    trim (32 ∷ 0xE2 ∷ 0x80 ∷ 0x83 ∷ 65 ∷ 32 ∷ 66 ∷ 0xC2 ∷ 0xA0 ∷ 10 ∷ []) ≡ 65 ∷ 32 ∷ 66 ∷ []
unfolding trim
trim_test = refl
