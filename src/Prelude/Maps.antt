-- ===== src/Prelude/Maps.antt =====
-- Hash maps and ordered maps as association lists; a key stands in one pair.
use strobengine.Prelude.Tests.{◌==◌ as nat_beq, ==_iff, if◌then◌else◌, Bool-cases}
use strobengine.Prelude.Lists.{All}
use Prim.Native.Nat.{ℕ}
use mathlib.Core.Path.{◌≡◌, refl, sym}
use mathlib.Core.Logic.{◌↔◌, inl, inr, ◌≢◌}
use mathlib.Core.Bool.{Bool, true}
use mathlib.Core.Option.{Option, none, some}
use mathlib.Core.List.{List, [], ◌∷◌}
use native.Mathlib.Omega.{arith}

pub record Eq {ℓ} (A : Type ℓ) : Type ℓ where
  pub beq : A → A → Bool
  pub beq_iff : (a b : A) → (beq a b ≡ true) ↔ (a ≡ b)

instance abbrev pub nat_eq : Eq ℕ
nat_eq = record { beq = nat_beq; beq_iff = ==_iff }

abbrev pub or_default : {V : Type 0} → Option V → V → V
or_default none d = d
or_default (some v) d = v

abbrev pub map_value : {V : Type 0} → (V → V) → Option V → Option V
map_value f none = none
map_value f (some v) = some (f v)

abbrev pub Absent : {K V : Type 0} → K → List (K × V) → Type 0
Absent k m = All (λ p. p.0 ≢ k) m

-- Every key stands in one pair.
abbrev pub DistinctKeys : {K V : Type 0} → List (K × V) → Type 0
DistinctKeys [] = Unit
DistinctKeys ((k, v) ∷ m) = Absent k m × DistinctKeys m

module _ {K V : Type 0} ⦃e : Eq K⦄ where
  unfoldable pub lookup : K → List (K × V) → Option V
  lookup k [] = none
  lookup k ((j, v) ∷ m) = if e.beq j k then some v else lookup k m

  -- `insert` of a hash map: an old value is replaced.
  unfoldable pub insert : K → V → List (K × V) → List (K × V)
  insert k v [] = (k, v) ∷ []
  insert k v ((j, w) ∷ m) = if e.beq j k then (j, v) ∷ m else (j, w) ∷ insert k v m

  -- `if let Some(value) = m.get_mut(k) { value = f(value) }`
  unfoldable pub adjust : K → (V → V) → List (K × V) → List (K × V)
  adjust k f [] = []
  adjust k f ((j, w) ∷ m) = if e.beq j k then (j, f w) ∷ m else (j, w) ∷ adjust k f m

  -- `f(m.entry(k).or_insert(initial))`
  unfoldable pub upsert : K → V → (V → V) → List (K × V) → List (K × V)
  upsert k initial f [] = (k, f initial) ∷ []
  upsert k initial f ((j, w) ∷ m) =
      if e.beq j k then (j, f w) ∷ m else (j, w) ∷ upsert k initial f m

  pub lookup-insert :
      (k j : K) (v : V) (m : List (K × V))
      → lookup j (insert k v m) ≡ (if e.beq k j then some v else lookup j m)
  unfolding lookup insert
  lookup-insert k j v [] = refl
  lookup-insert k j v ((i, w) ∷ m) =
      ground (arith, e.beq_iff k j, e.beq_iff i k, e.beq_iff i j, lookup-insert k j v m)

  pub lookup-upsert :
      (k j : K) (d : V) (f : V → V) (m : List (K × V))
      → lookup j (upsert k d f m)
        ≡ (if e.beq k j then some (f (or_default (lookup j m) d)) else lookup j m)
  unfolding lookup upsert
  lookup-upsert k j d f [] = ground arith
  lookup-upsert k j d f ((i, w) ∷ m) =
      ground (arith, e.beq_iff k j, e.beq_iff i k, e.beq_iff i j, lookup-upsert k j d f m)

  pub lookup-adjust :
      (k j : K) (f : V → V) (m : List (K × V))
      → lookup j (adjust k f m) ≡ (if e.beq k j then map_value f (lookup j m) else lookup j m)
  unfolding lookup adjust
  lookup-adjust k j f [] = ground arith
  lookup-adjust k j f ((i, w) ∷ m) =
      ground (arith, e.beq_iff k j, e.beq_iff i k, e.beq_iff i j, lookup-adjust k j f m)

  insert-Absent :
      (k j : K) (v : V) (m : List (K × V)) → k ≢ j → Absent j m → Absent j (insert k v m)
  unfolding insert
  insert-Absent k j v [] h a = (h, tt)
  insert-Absent k j v ((i, w) ∷ m) h a = elim (Bool-cases (e.beq i k)) [
    | inl t ↦ rw (t, insert) a
    | inr t ↦ rw (t, insert) (a.0, insert-Absent k j v m h a.1)
  ]

  pub insert-DistinctKeys :
      (k : K) (v : V) (m : List (K × V)) → DistinctKeys m → DistinctKeys (insert k v m)
  unfolding insert
  insert-DistinctKeys k v [] d = (tt, tt)
  insert-DistinctKeys k v ((i, w) ∷ m) d = elim (Bool-cases (e.beq i k)) [
    | inl t ↦ rw (t, insert) d
    | inr t ↦
        let ne : k ≢ i = λ q. cc (t, (e.beq_iff i k).1 (sym q)) in
        rw (t, insert) (insert-Absent k i v m ne d.0, insert-DistinctKeys k v m d.1)
  ]

  adjust-Absent : (k j : K) (f : V → V) (m : List (K × V)) → Absent j m → Absent j (adjust k f m)
  unfolding adjust
  adjust-Absent k j f [] a = tt
  adjust-Absent k j f ((i, w) ∷ m) a = elim (Bool-cases (e.beq i k)) [
    | inl t ↦ rw (t, adjust) a
    | inr t ↦ rw (t, adjust) (a.0, adjust-Absent k j f m a.1)
  ]

  pub adjust-DistinctKeys :
      (k : K) (f : V → V) (m : List (K × V)) → DistinctKeys m → DistinctKeys (adjust k f m)
  unfolding adjust
  adjust-DistinctKeys k f [] d = tt
  adjust-DistinctKeys k f ((i, w) ∷ m) d = elim (Bool-cases (e.beq i k)) [
    | inl t ↦ rw (t, adjust) d
    | inr t ↦ rw (t, adjust) (adjust-Absent k i f m d.0, adjust-DistinctKeys k f m d.1)
  ]

  upsert-Absent :
      (k j : K) (d : V) (f : V → V) (m : List (K × V))
      → k ≢ j
      → Absent j m
      → Absent j (upsert k d f m)
  unfolding upsert
  upsert-Absent k j d f [] h a = (h, tt)
  upsert-Absent k j d f ((i, w) ∷ m) h a = elim (Bool-cases (e.beq i k)) [
    | inl t ↦ rw (t, upsert) a
    | inr t ↦ rw (t, upsert) (a.0, upsert-Absent k j d f m h a.1)
  ]

  pub upsert-DistinctKeys :
      (k : K) (d : V) (f : V → V) (m : List (K × V))
      → DistinctKeys m
      → DistinctKeys (upsert k d f m)
  unfolding upsert
  upsert-DistinctKeys k d f [] h = (tt, tt)
  upsert-DistinctKeys k d f ((i, w) ∷ m) h = elim (Bool-cases (e.beq i k)) [
    | inl t ↦ rw (t, upsert) h
    | inr t ↦
        let ne : k ≢ i = λ q. cc (t, (e.beq_iff i k).1 (sym q)) in
        rw (t, upsert) (upsert-Absent k i d f m ne h.0, upsert-DistinctKeys k d f m h.1)
  ]

  pub lookup-Absent : (k : K) (m : List (K × V)) → Absent k m → lookup k m ≡ none
  unfolding lookup
  lookup-Absent k [] a = refl
  lookup-Absent k ((j, w) ∷ m) a = elim (Bool-cases (e.beq j k)) [
    | inl t ↦ absurd (a.0 ((e.beq_iff j k).0 t))
    | inr t ↦ rw (t, lookup) (lookup-Absent k m a.1)
  ]
