-- ===== src/Prelude/Ascending.antt =====
-- Ordered maps with i64 keys: an update keeps the keys in ascending order.
use strobengine.Prelude.Tests.{◌==◌, Bool-cases}
use strobengine.Prelude.Lists.{All}
use strobengine.Prelude.Words.{u64_mod, i64_lt}
use strobengine.Prelude.Maps.{nat_eq}
use strobengine.Prelude.Order.{upsert_ordered}
use Prim.Native.Nat.{ℕ, ◌<◌}
use mathlib.Core.Path.{◌≡◌}
use mathlib.Core.Logic.{inl, inr}
use mathlib.Core.Bool.{true, false}
use mathlib.Core.List.{List, [], ◌∷◌}
use native.Mathlib.Omega.{arith}

i64_lt_trans : (a b c : ℕ) → i64_lt a b ≡ true → i64_lt b c ≡ true → i64_lt a c ≡ true
i64_lt_trans a b c h k = ground arith

i64_lt_total :
    (a b : ℕ)
    → a < u64_mod
    → b < u64_mod
    → (a == b) ≡ false
    → i64_lt a b ≡ false
    → i64_lt b a ≡ true
i64_lt_total a b ha hb h k = ground arith

module _ {V : Type 0} where
  abbrev pub AllAfter : ℕ → List (ℕ × V) → Type 0
  AllAfter k m = All (λ p. i64_lt k p.0 ≡ true) m

  -- The keys are words, each before all the later ones.
  abbrev pub Ascending : List (ℕ × V) → Type 0
  Ascending [] = Unit
  Ascending ((k, v) ∷ m) = (k < u64_mod) × AllAfter k m × Ascending m

  AllAfter-trans : (j k : ℕ) (m : List (ℕ × V)) → i64_lt j k ≡ true → AllAfter k m → AllAfter j m
  AllAfter-trans j k [] h a = tt
  AllAfter-trans j k ((i, v) ∷ m) h a = (i64_lt_trans j k i h a.0, AllAfter-trans j k m h a.1)

  AllAfter-upsert_ordered :
      (j k : ℕ) (d : V) (f : V → V) (m : List (ℕ × V))
      → i64_lt j k ≡ true
      → AllAfter j m
      → AllAfter j (upsert_ordered i64_lt k d f m)
  unfolding upsert_ordered
  AllAfter-upsert_ordered j k d f [] h a = (h, tt)
  AllAfter-upsert_ordered j k d f ((i, w) ∷ m) h a = elim (Bool-cases (i == k)) [
    | inl t ↦ rw (t, upsert_ordered) a
    | inr t ↦ elim (Bool-cases (i64_lt i k)) [
      | inl u ↦ rw (t, u, upsert_ordered) (a.0, AllAfter-upsert_ordered j k d f m h a.1)
      | inr u ↦ rw (t, u, upsert_ordered) (h, a)
    ]
  ]

  pub Ascending-upsert_ordered :
      (k : ℕ) (d : V) (f : V → V) (m : List (ℕ × V))
      → k < u64_mod
      → Ascending m
      → Ascending (upsert_ordered i64_lt k d f m)
  unfolding upsert_ordered
  Ascending-upsert_ordered k d f [] h a = (h, tt, tt)
  Ascending-upsert_ordered k d f ((j, w) ∷ m) h a = elim (Bool-cases (j == k)) [
    | inl t ↦ rw (t, upsert_ordered) a
    | inr t ↦ elim (Bool-cases (i64_lt j k)) [
      | inl u ↦
          rw (t, u, upsert_ordered)
            (a.0, AllAfter-upsert_ordered j k d f m u a.1, Ascending-upsert_ordered k d f m h a.2)
      | inr u ↦
          let first = i64_lt_total j k a.0 h t u in
          rw (t, u, upsert_ordered) (h, (first, AllAfter-trans k j m first a.1), a)
    ]
  ]
