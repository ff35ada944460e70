-- ===== src/Text/Print.antt =====
-- `to_string` of an unsigned number of 64 bits, of the standard library, and what `parse` reads.
use native.Mathlib.Numerals.{unary_clauses}
use strobengine.Prelude.{
  ℕ, zero, suc, ◌+◌, ◌-◌, ◌*◌, ◌/◌, ◌%◌, ◌^◌, ◌<◌, ◌≤◌, ◌≡◌, refl, ◌∙◌, ◌≢◌, inl, inr, true, false,
  [], ◌∷◌, ◌++◌, some, arith, ltb, All, Bool-cases,
}
use strobengine.Prelude.Words.{u64_mod}
use strobengine.Text.Utf8.{Bytes}
use strobengine.Text.Trim.{trim, IsGraphic, trim_self}
use strobengine.Text.Numbers.{parse_digits, unsigned_digits, parse_usize}

-- The decimal digits of a number of at most so many.
unfoldable pub decimal_digits : ℕ → ℕ → Bytes
decimal_digits zero n = []
decimal_digits (suc most) n = elim (ltb n 10) [
  | true ↦ (n + b'0') ∷ []
  | false ↦ decimal_digits most (n / 10) ++ (n % 10 + b'0') ∷ []
]

-- A number below 2 ^ 64 has at most 20 digits.
unfoldable pub decimal : ℕ → Bytes
decimal n = decimal_digits 20 n

parse_digits-append :
    (acc v : ℕ) (xs ys : Bytes)
    → parse_digits acc xs ≡ some v
    → parse_digits acc (xs ++ ys) ≡ parse_digits v ys
unfolding parse_digits
parse_digits-append acc v [] ys e = ground (arith, e)
parse_digits-append acc v (x ∷ xs) ys e =
    ground (arith, e, parse_digits-append (acc * 10 + (x - b'0')) v xs ys)

parse_one : (n : ℕ) → n < u64_mod → parse_digits (n / 10) ((n % 10 + b'0') ∷ []) ≡ some n
unfolding parse_digits
parse_one n b = ground arith

tenth_lt : (n p : ℕ) → n < p * 10 → n / 10 < p
tenth_lt n p h = omega arith

parse_digits-digits :
    (most n : ℕ) → n < 10 ^ most → n < u64_mod → parse_digits 0 (decimal_digits most n) ≡ some n
unfolding decimal_digits
parse_digits-digits zero n s b = unfold parse_digits in ground arith
parse_digits-digits (suc most) n s b = elim (Bool-cases (ltb n 10)) [
  | inl t ↦ rw (t, decimal_digits) (unfold parse_digits in ground arith)
  | inr t ↦
      rw (t, decimal_digits)
        (parse_digits-append 0 (n / 10) (decimal_digits most (n / 10)) _ (
            parse_digits-digits most (n / 10) (tenth_lt n (10 ^ most) (simp unary_clauses at s))
              (omega arith))
          ∙ parse_one n b)
]

abbrev IsDigit : ℕ → Type 0
IsDigit b = (b'0' ≤ b) × (b ≤ b'9')

join_numerals : (xs ys : Bytes) → All IsDigit xs → All IsDigit ys → All IsDigit (xs ++ ys)
join_numerals [] ys h k = k
join_numerals (x ∷ xs) ys h k = (h.0, join_numerals xs ys h.1 k)

decimal_digits-IsDigit : (most n : ℕ) → All IsDigit (decimal_digits most n)
unfolding decimal_digits
decimal_digits-IsDigit zero n = tt
decimal_digits-IsDigit (suc most) n = elim (Bool-cases (ltb n 10)) [
  | inl t ↦ rw (t, decimal_digits) (ground arith)
  | inr t ↦
      rw (t, decimal_digits)
        (join_numerals _ _ (decimal_digits-IsDigit most (n / 10)) (ground arith))
]

graphic : (bs : Bytes) → All IsDigit bs → All IsGraphic bs
graphic [] h = tt
graphic (b ∷ bs) h = (omega (arith, h.0), graphic bs h.1)

pub decimal-IsGraphic : (n : ℕ) → All IsGraphic (decimal n)
unfolding decimal
decimal-IsGraphic n = graphic (decimal_digits 20 n) (decimal_digits-IsDigit 20 n)

parse_unsigned :
    (bs : Bytes) (n : ℕ)
    → All IsDigit bs
    → bs ≢ []
    → parse_digits 0 bs ≡ some n
    → parse_usize bs ≡ some n
unfolding parse_usize unsigned_digits
parse_unsigned [] n d h e = elim (h refl) [ ]
parse_unsigned (b ∷ bs) n d h e = ground (arith, e, d.0)

digits_some : (most n : ℕ) → decimal_digits (suc most) n ≢ []
unfolding decimal_digits
digits_some most n = elim (Bool-cases (ltb n 10)) [
  | inl t ↦ rw (t, decimal_digits) (λ e. cc)
  | inr t ↦ rw (t, decimal_digits) (grows (decimal_digits most (n / 10)))
]
  where
    grows : (xs : Bytes) → xs ++ (n % 10 + b'0') ∷ [] ≢ []
    grows [] e = cc
    grows (x ∷ xs) e = cc

-- A printed number of 64 bits is read back, with the white space around it trimmed or not.
pub parse_usize-decimal : (n : ℕ) → n < u64_mod → parse_usize (trim (decimal n)) ≡ some n
unfolding decimal
parse_usize-decimal n b =
    rw (trim_self (decimal n) (decimal-IsGraphic n), decimal)
      (parse_unsigned (decimal_digits 20 n) n (decimal_digits-IsDigit 20 n) (digits_some 19 n)
        (parse_digits-digits 20 n (omega (arith, b)) b))
