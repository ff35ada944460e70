-- ===== src/Prelude/Order.antt =====
-- Stable sorting by a Boolean order, and ordered maps.
use strobengine.Prelude.Tests.{if◌then◌else◌}
use strobengine.Prelude.Maps.{Eq}
use mathlib.Core.Bool.{Bool}
use mathlib.Core.List.{List, [], ◌∷◌}

module _ {A : Type 0} (before : A → A → Bool) where
  -- After the elements that stand before it.
  unfoldable pub place : A → List A → List A
  place a [] = a ∷ []
  place a (b ∷ bs) = if before b a then b ∷ place a bs else a ∷ b ∷ bs

  -- `sort_by`
  unfoldable pub sort_by : List A → List A
  sort_by [] = []
  sort_by (a ∷ as') = place a (sort_by as')

-- `f(m.entry(k).or_insert(initial))` on an ordered map, with its keys in ascending order.
module _ {K V : Type 0} ⦃e : Eq K⦄ where
  unfoldable pub upsert_ordered : (K → K → Bool) → K → V → (V → V) → List (K × V) → List (K × V)
  upsert_ordered less k initial f [] = (k, f initial) ∷ []
  upsert_ordered less k initial f ((j, w) ∷ m) =
      if e.beq j k
      then (j, f w) ∷ m
      else if less j k
      then (j, w) ∷ upsert_ordered less k initial f m
      else (k, f initial) ∷ (j, w) ∷ m
