-- ===== src/Text/Numbers.antt =====
-- `str::parse::<usize>` of the standard library, on a 64-bit target.
use strobengine.Prelude.{
  ℕ, ◌+◌, ◌-◌, ◌*◌, ◌≡◌, refl, Bool, [], ◌∷◌, Option, none, some, leb, ltb, ◌==◌, ◌&&◌,
  if◌then◌else◌,
}
use strobengine.Prelude.Words.{u64_mod}
use strobengine.Text.Utf8.{Bytes}

abbrev is_digit : ℕ → Bool
is_digit b = leb b'0' b && leb b b'9'

-- The digits after `acc`; `none` on another byte and on overflow.
unfoldable pub parse_digits : ℕ → Bytes → Option ℕ
parse_digits acc [] = some acc
parse_digits acc (b ∷ bs) =
    let value = acc * 10 + (b - b'0') in
    let rest = parse_digits value bs in if is_digit b && ltb value u64_mod then rest else none

unfoldable pub unsigned_digits : Bytes → Option ℕ
unsigned_digits [] = none
unsigned_digits (b ∷ bs) = parse_digits 0 (b ∷ bs)

-- One leading `+` is allowed, an empty text is not a number.
unfoldable pub parse_usize : Bytes → Option ℕ
unfolding parse_digits unsigned_digits
parse_usize [] = none
parse_usize (b ∷ bs) = if b == b'+' then unsigned_digits bs else unsigned_digits (b ∷ bs)

parse_usize_test : parse_usize (b'4' ∷ b'2' ∷ []) ≡ some 42
unfolding parse_usize
parse_usize_test = refl
