-- ===== src/Prelude/Totals.antt =====
-- Sums of 64-bit counters over the entries of a map.
use strobengine.Prelude.Tests.{if◌then◌else◌, Bool-cases}
use strobengine.Prelude.Lists.{All}
use strobengine.Prelude.Words.{add64}
use strobengine.Prelude.Maps.{Eq, upsert}
use strobengine.Prelude.Order.{upsert_ordered}
use Prim.Native.Nat.{ℕ}
use mathlib.Core.Path.{◌≡◌, refl, ap, ◌∙◌}
use mathlib.Core.Logic.{inl, inr}
use mathlib.Core.Bool.{Bool}
use mathlib.Core.List.{List, [], ◌∷◌}
use native.Mathlib.Omega.{arith}

-- The sum of `f` over the elements that pass `keep`, from `acc` on.
unfoldable pub sum_where : {A : Type 0} → (A → Bool) → (A → ℕ) → ℕ → List A → ℕ
sum_where keep f acc [] = acc
sum_where keep f acc (x ∷ xs) = sum_where keep f (if keep x then add64 acc (f x) else acc) xs

-- Adding first or last is the same.
pub sum_where-add64 :
    {A : Type 0} (keep : A → Bool) (f : A → ℕ) (acc n : ℕ) (xs : List A)
    → sum_where keep f (add64 acc n) xs ≡ add64 (sum_where keep f acc xs) n
unfolding sum_where
sum_where-add64 keep f acc n [] = refl
sum_where-add64 keep f acc n (x ∷ xs) = elim (Bool-cases (keep x)) [
  | inl t ↦
      rw (t, sum_where)
        (ap (λ a. sum_where keep f a xs) (swap acc (f x))
          ∙ sum_where-add64 keep f (add64 acc (f x)) n xs)
  | inr t ↦ rw (t, sum_where) (sum_where-add64 keep f acc n xs)
]
  where
    swap : (a b : ℕ) → add64 (add64 a n) b ≡ add64 (add64 a b) n
    swap a b = omega arith

module _ {K V : Type 0} ⦃e : Eq K⦄ (value : V → ℕ) (keep : K → Bool) where
  -- The sum of a counter over the entries whose key passes the test.
  abbrev pub map_total : ℕ → List (K × V) → ℕ
  map_total acc m = sum_where (λ p. keep p.0) (λ p. value p.1) acc m

  abbrev added : ℕ → ℕ → K → ℕ
  added total n k = if keep k then add64 total n else total

  grown_head :
      (k : K) (f : V → V) (n acc : ℕ) (v : V) (m : List (K × V))
      → value (f v) ≡ add64 (value v) n
      → map_total acc ((k, f v) ∷ m) ≡ added (map_total acc ((k, v) ∷ m)) n k
  unfolding sum_where
  grown_head k f n acc v m g = elim (Bool-cases (keep k)) [
    | inl t ↦ rw (t, sum_where) (ap (λ a. map_total a m) step ∙ sum_where-add64 _ _ _ n m)
    | inr t ↦ rw (t, sum_where) refl
  ]
    where
      assoc : (a b : ℕ) → add64 a (add64 b n) ≡ add64 (add64 a b) n
      assoc a b = omega arith

      step : add64 acc (value (f v)) ≡ add64 (add64 acc (value v)) n
      step = ap (λ x. add64 acc x) g ∙ assoc acc (value v)

  new_head :
      (k : K) (v : V) (n acc : ℕ) (m : List (K × V))
      → value v ≡ add64 0 n
      → map_total acc ((k, v) ∷ m) ≡ added (map_total acc m) n k
  unfolding sum_where
  new_head k v n acc m g = elim (Bool-cases (keep k)) [
    | inl t ↦ rw (t, sum_where) (ap (λ a. map_total a m) step ∙ sum_where-add64 _ _ _ n m)
    | inr t ↦ rw (t, sum_where) refl
  ]
    where
      plain : (a : ℕ) → add64 a (add64 0 n) ≡ add64 a n
      plain a = omega arith

      step : add64 acc (value v) ≡ add64 acc n
      step = ap (λ x. add64 acc x) g ∙ plain acc

  module _ (Good : V → Type 0) (k : K) (d : V) (f : V → V) (n : ℕ) (start : value (f d) ≡ add64 0 n)
      (grow : (v : V) → Good v → value (f v) ≡ add64 (value v) n) where
    -- An update that grows the counter of an entry by `n` adds `n` to the sum.
    pub map_total-upsert :
        (acc : ℕ) (m : List (K × V))
        → All (λ p. Good p.1) m
        → map_total acc (upsert k d f m) ≡ added (map_total acc m) n k
    unfolding upsert sum_where
    map_total-upsert acc [] h = new_head k (f d) n acc [] start
    map_total-upsert acc ((j, w) ∷ m) h = elim (Bool-cases (e.beq j k)) [
      | inl t ↦
          rw (t, upsert)
            (grown_head j f n acc w m (grow w h.0)
              ∙ ap (λ i. added (map_total acc ((j, w) ∷ m)) n i) ((e.beq_iff j k).0 t))
      | inr t ↦
          rw (t, upsert) (map_total-upsert (if keep j then add64 acc (value w) else acc) m h.1)
    ]

    pub map_total-upsert_ordered :
        (less : K → K → Bool) (acc : ℕ) (m : List (K × V))
        → All (λ p. Good p.1) m
        → map_total acc (upsert_ordered less k d f m) ≡ added (map_total acc m) n k
    unfolding upsert_ordered sum_where
    map_total-upsert_ordered less acc [] h = new_head k (f d) n acc [] start
    map_total-upsert_ordered less acc ((j, w) ∷ m) h = elim (Bool-cases (e.beq j k)) [
      | inl t ↦
          rw (t, upsert_ordered)
            (grown_head j f n acc w m (grow w h.0)
              ∙ ap (λ i. added (map_total acc ((j, w) ∷ m)) n i) ((e.beq_iff j k).0 t))
      | inr t ↦ elim (Bool-cases (less j k)) [
        | inl u ↦
            rw (t, u, upsert_ordered)
              (map_total-upsert_ordered less (if keep j then add64 acc (value w) else acc) m h.1)
        | inr u ↦ rw (t, u, upsert_ordered) (new_head k (f d) n acc ((j, w) ∷ m) start)
      ]
    ]

-- A property of every entry outlives an update that keeps it.
module _ {K V : Type 0} ⦃e : Eq K⦄ (Good : V → Type 0) (k : K) (d : V) (f : V → V) where
  pub upsert-All :
      Good d
      → ((v : V) → Good v → Good (f v))
      → (m : List (K × V)) → All (λ p. Good p.1) m
      → All (λ p. Good p.1) (upsert k d f m)
  unfolding upsert
  upsert-All g s [] h = (s d g, tt)
  upsert-All g s ((j, w) ∷ m) h = elim (Bool-cases (e.beq j k)) [
    | inl t ↦ rw (t, upsert) (s w h.0, h.1)
    | inr t ↦ rw (t, upsert) (h.0, upsert-All g s m h.1)
  ]

  pub upsert_ordered-All :
      (less : K → K → Bool)
      → Good d
      → ((v : V) → Good v → Good (f v))
      → (m : List (K × V)) → All (λ p. Good p.1) m
      → All (λ p. Good p.1) (upsert_ordered less k d f m)
  unfolding upsert_ordered
  upsert_ordered-All less g s [] h = (s d g, tt)
  upsert_ordered-All less g s ((j, w) ∷ m) h = elim (Bool-cases (e.beq j k)) [
    | inl t ↦ rw (t, upsert_ordered) (s w h.0, h.1)
    | inr t ↦ elim (Bool-cases (less j k)) [
      | inl u ↦ rw (t, u, upsert_ordered) (h.0, upsert_ordered-All less g s m h.1)
      | inr u ↦ rw (t, u, upsert_ordered) (s d g, h)
    ]
  ]
