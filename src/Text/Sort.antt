-- ===== src/Text/Sort.antt =====
-- `sort` of the standard library on strings.
use mathlib.Core.List.{Perm}
use mathlib.Core.List.Perm
use strobengine.Prelude.{
  ℕ, ◌≡◌, refl, true, false, List, [], ◌∷◌, arith, if◌then◌else◌, inl, inr, Bool-cases, length,
  zero, suc, take, All,
}
use strobengine.Text.Utf8.{Bytes}
use strobengine.Text.Compare.{le_text}

insert_sorted : Bytes → List Bytes → List Bytes
insert_sorted a [] = a ∷ []
insert_sorted a (b ∷ bs) = if le_text a b then a ∷ b ∷ bs else b ∷ insert_sorted a bs

unfoldable pub sort : List Bytes → List Bytes
unfolding insert_sorted
sort [] = []
sort (a ∷ as') = insert_sorted a (sort as')

-- Each element is at most the next.
abbrev LeHead : Bytes → List Bytes → Type 0
LeHead a [] = Unit
LeHead a (b ∷ bs) = le_text a b ≡ true

abbrev pub IsSorted : List Bytes → Type 0
IsSorted [] = Unit
IsSorted (a ∷ as') = LeHead a as' × IsSorted as'

le_text_total : (a b : Bytes) → le_text a b ≡ false → le_text b a ≡ true
unfolding le_text
le_text_total [] b h = cc
le_text_total (x ∷ a) [] h = refl
le_text_total (x ∷ a) (y ∷ b) h = ground (arith, le_text_total a b)

insert_sorted-LeHead :
    (a b : Bytes) (bs : List Bytes)
    → le_text b a ≡ true
    → LeHead b bs
    → LeHead b (insert_sorted a bs)
unfolding insert_sorted
insert_sorted-LeHead a b [] h l = h
insert_sorted-LeHead a b (c ∷ bs) h l = ground arith

insert_sorted-IsSorted : (a : Bytes) (bs : List Bytes) → IsSorted bs → IsSorted (insert_sorted a bs)
unfolding insert_sorted
insert_sorted-IsSorted a [] s = (tt, tt)
insert_sorted-IsSorted a (b ∷ bs) s = elim (Bool-cases (le_text a b)) [
  | inl e ↦ rw (e, insert_sorted) (e, s)
  | inr e ↦
      rw (e, insert_sorted)
        (insert_sorted-LeHead a b bs (le_text_total a b e) s.0, insert_sorted-IsSorted a bs s.1)
]

pub sort-IsSorted : (as' : List Bytes) → IsSorted (sort as')
unfolding sort
sort-IsSorted [] = tt
sort-IsSorted (a ∷ as') = insert_sorted-IsSorted a (sort as') (sort-IsSorted as')

insert_sorted-perm : (a : Bytes) (bs : List Bytes) → Perm (insert_sorted a bs) (a ∷ bs)
unfolding insert_sorted
insert_sorted-perm a [] = Perm.refl (a ∷ [])
insert_sorted-perm a (b ∷ bs) = elim (Bool-cases (le_text a b)) [
  | inl e ↦ rw (e, insert_sorted) (Perm.refl (a ∷ b ∷ bs))
  | inr e ↦
      rw (e, insert_sorted) (Perm.trans (Perm.cons b (insert_sorted-perm a bs)) (Perm.swap a b bs))
]

pub sort-perm : (as' : List Bytes) → Perm (sort as') as'
unfolding sort
sort-perm [] = Perm.refl []
sort-perm (a ∷ as') = Perm.trans (insert_sorted-perm a (sort as')) (Perm.cons a (sort-perm as'))

length-insert_sorted : (a : Bytes) (bs : List Bytes) → length (insert_sorted a bs) ≡ suc (length bs)
unfolding insert_sorted
length-insert_sorted a [] = refl
length-insert_sorted a (b ∷ bs) = ground (arith, length-insert_sorted a bs)

pub length-sort : (as' : List Bytes) → length (sort as') ≡ length as'
unfolding sort
length-sort [] = refl
length-sort (a ∷ as') = omega (arith, length-insert_sorted a (sort as'), length-sort as')

LeHead-take : (n : ℕ) (a : Bytes) (bs : List Bytes) → LeHead a bs → LeHead a (take n bs)
LeHead-take zero a bs h = tt
LeHead-take (suc n) a [] h = tt
LeHead-take (suc n) a (b ∷ bs) h = h

pub IsSorted-take : (n : ℕ) (as' : List Bytes) → IsSorted as' → IsSorted (take n as')
IsSorted-take zero as' s = tt
IsSorted-take (suc n) [] s = tt
IsSorted-take (suc n) (a ∷ as') s = (LeHead-take n a as' s.0, IsSorted-take n as' s.1)

All-insert_sorted :
    (P : Bytes → Type 0) (a : Bytes) (bs : List Bytes) → P a → All P bs → All P (insert_sorted a bs)
unfolding insert_sorted
All-insert_sorted P a [] p h = (p, tt)
All-insert_sorted P a (b ∷ bs) p h = elim (Bool-cases (le_text a b)) [
  | inl e ↦ rw (e, insert_sorted) (p, (h.0, h.1))
  | inr e ↦ rw (e, insert_sorted) (h.0, All-insert_sorted P a bs p h.1)
]

pub All-sort : (P : Bytes → Type 0) (as' : List Bytes) → All P as' → All P (sort as')
unfolding sort
All-sort P [] h = tt
All-sort P (a ∷ as') h = All-insert_sorted P a (sort as') h.0 (All-sort P as' h.1)
