-- ===== src/Text/Compare.antt =====
-- Comparison of texts: `==`, the order that `sort` uses, and `eq_ignore_ascii_case`.
use strobengine.Prelude.{
  ℕ, ◌+◌, ◌≡◌, ap, ◌↔◌, Bool, true, false, [], ◌∷◌, arith, leb, ltb, ◌==◌, ◌&&◌, if◌then◌else◌, map,
}
use strobengine.Prelude.Maps.{Eq}
use strobengine.Text.Utf8.{Bytes}

unfoldable pub same : Bytes → Bytes → Bool
same [] [] = true
same (a ∷ as') (b ∷ bs) = a == b && same as' bs
same _ _ = false

pub same_iff : (a b : Bytes) → (same a b ≡ true) ↔ (a ≡ b)
unfolding same
same_iff (x ∷ a) (y ∷ b) = ground (arith, same_iff a b)
same_iff _ _ = ground arith

instance abbrev pub bytes_eq : Eq Bytes
bytes_eq = record { beq = same; beq_iff = same_iff }

-- Lexicographic on bytes, as `Ord for str`.
unfoldable pub le_text : Bytes → Bytes → Bool
le_text [] b = true
le_text (x ∷ a) [] = false
le_text (x ∷ a) (y ∷ b) = let rest = le_text a b in if x == y then rest else ltb x y

to_ascii_lowercase : ℕ → ℕ
to_ascii_lowercase b = if leb b'A' b && leb b b'Z' then b + 32 else b

unfoldable pub eq_ignore_ascii_case : Bytes → Bytes → Bool
unfolding same to_ascii_lowercase
eq_ignore_ascii_case a b = same (map to_ascii_lowercase a) (map to_ascii_lowercase b)

-- Names that agree but for ASCII case agree with the same names.
pub eq_ignore_ascii_case_same :
    (a b c : Bytes)
    → eq_ignore_ascii_case a b ≡ true
    → eq_ignore_ascii_case a c ≡ eq_ignore_ascii_case b c
unfolding eq_ignore_ascii_case
eq_ignore_ascii_case_same a b c e =
    ap (λ k. same k (map to_ascii_lowercase c))
      ((same_iff (map to_ascii_lowercase a) (map to_ascii_lowercase b)).0 e)
