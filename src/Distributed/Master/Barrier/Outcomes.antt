-- ===== src/Distributed/Master/Barrier/Outcomes.antt =====
-- What `wait_for_ready` of src/distributed/master/barrier.rs returns.
use strobengine.Prelude.{
  ℕ, zero, suc, ◌-◌, ◌≤◌, ◌<◌, ◌≡◌, ◌≢◌, refl, ◌⊎◌, inl, inr, false, List, [], ◌∷◌, arith, leb,
  ◌==◌, if◌then◌else◌, length, take, All, Bool-cases, sym, ap, subst,
}
use strobengine.Prelude.Maps.{lookup, DistinctKeys}
use strobengine.Distributed.Master.Registry.Sweeping.{Absent-ids}
use strobengine.Text.Utf8.{Bytes}
use strobengine.Text.Compare.{bytes_eq, same, same_iff}
use strobengine.Text.Sort.{sort, sort-IsSorted, IsSorted-take, length-sort, All-sort}
use strobengine.Distributed.Master.Registry.{
  WorkerRecord, Registry, is_allocatable, ids_where, allocatable_workers,
}
use strobengine.Distributed.Master.Registry.Invariant.{Inv}
use strobengine.Distributed.Master.Barrier.{
  Round, allocated, timed_out, waiting, required, wait_for_ready, Any, IsAllocatable, Allocation,
}

All-map :
    (P Q : Bytes → Type 0) → ((b : Bytes) → P b → Q b) → (ids : List Bytes) → All P ids → All Q ids
All-map P Q f [] h = tt
All-map P Q f (x ∷ xs) h = (f x h.0, All-map P Q f xs h.1)

All-take : (P : Bytes → Type 0) (n : ℕ) (ids : List Bytes) → All P ids → All P (take n ids)
All-take P zero ids h = tt
All-take P (suc n) [] h = tt
All-take P (suc n) (x ∷ xs) h = (h.0, All-take P n xs h.1)

take_all : (ids : List Bytes) → take (length ids) ids ≡ ids
take_all [] = refl
take_all (x ∷ xs) = ap (◌∷◌ x) (take_all xs)

length-take_le : (n : ℕ) (ids : List Bytes) → n ≤ length ids → length (take n ids) ≡ n
length-take_le zero ids h = refl
length-take_le (suc n) [] h = elim h [ ]
length-take_le (suc n) (x ∷ xs) h = ap suc (length-take_le n xs (omega arith))

-- Every listed id has its record in the registry.
skip_first :
    (j : Bytes) (w : WorkerRecord) (r : Registry) (id : Bytes)
    → (j ≢ id) × IsAllocatable r id
    → IsAllocatable ((j, w) ∷ r) id
unfolding lookup
skip_first j w r id (ne, (v, e, a)) = (v, rw (ne_same j id ne) e, a)
  where
    ne_same : (a b : Bytes) → a ≢ b → same a b ≡ false
    ne_same a b h = elim (Bool-cases (same a b)) [
      | inl t ↦ absurd (h ((same_iff a b).0 t))
      | inr t ↦ t
    ]

All-both :
    (P Q : Bytes → Type 0) (ids : List Bytes) → All P ids → All Q ids → All (λ b. P b × Q b) ids
All-both P Q [] h k = tt
All-both P Q (x ∷ xs) h k = ((h.0, k.0), All-both P Q xs h.1 k.1)

usable_ids :
    (r : Registry)
    → All (λ p. p.1.worker_id ≡ p.0) r
    → DistinctKeys r
    → All (IsAllocatable r) (ids_where is_allocatable r)
unfolding ids_where
usable_ids [] o d = tt
usable_ids ((j, w) ∷ r) o d =
    let others =
      All-map (λ id. (j ≢ id) × IsAllocatable r id) (IsAllocatable ((j, w) ∷ r)) (skip_first j w r)
        (ids_where is_allocatable r)
        (All-both (λ id. j ≢ id) (IsAllocatable r) (ids_where is_allocatable r)
          (All-map (λ id. id ≢ j) (λ id. j ≢ id) (λ b h q. h (sym q)) (ids_where is_allocatable r)
            (Absent-ids is_allocatable r j o.1 d.0))
          (usable_ids r o.1 d.1)) in
    elim (Bool-cases (is_allocatable w)) [
      | inl a ↦
          rw (a, ids_where)
            ((w, (unfold lookup in rw ((same_iff j w.worker_id).1 (sym o.0)) refl), a), others)
      | inr a ↦ rw (a, ids_where) others
    ]

-- The ids that a satisfied round hands out.
abbrev handed_out : ℕ → Registry → List Bytes
handed_out expected r =
    if expected == 0
    then sort (allocatable_workers r)
    else take (required expected) (sort (allocatable_workers r))

handed_out-Allocation :
    (expected : ℕ) (r : Registry)
    → Inv r
    → required expected ≤ length (sort (allocatable_workers r))
    → Allocation expected r (handed_out expected r)
handed_out-Allocation expected r v h = elim (Bool-cases (expected == 0)) [
  | inl z ↦ rw z (record {
    enough = omega (arith, length-sort (allocatable_workers r));
    first = sym (take_all (sort (allocatable_workers r)));
    count = rw z (length-sort (allocatable_workers r));
    sorted = sort-IsSorted (allocatable_workers r);
    usable = usable;
  })
  | inr z ↦
      let pos : required expected ≡ expected = ground arith in
      let len = length-take_le (required expected) (sort (allocatable_workers r)) h in
      rw z (record {
        enough = omega (arith, length-sort (allocatable_workers r));
        first = rw len refl;
        count = rw (z, len) pos;
        sorted =
            IsSorted-take (required expected) (sort (allocatable_workers r))
              (sort-IsSorted (allocatable_workers r));
        usable =
            All-take (IsAllocatable r) (required expected) (sort (allocatable_workers r)) usable;
      })
]
  where
    usable : All (IsAllocatable r) (sort (allocatable_workers r))
    usable =
        All-sort (IsAllocatable r) (allocatable_workers r)
          (unfold allocatable_workers in usable_ids r v.own_key v.distinct)

-- The workers that the barrier hands out are those that a round found: enough of them, the first
-- in the order of their ids, exactly as many as expected or all if no number was asked for, and
-- each of them ready with a command stream in that round's registry.
pub wait_for_ready-Allocation :
    (expected deadline : ℕ) (rounds : List Round) (ids : List Bytes)
    → All (λ t. Inv t.registry) rounds
    → wait_for_ready expected deadline rounds ≡ allocated ids
    → Any (λ t. Allocation expected t.registry ids) rounds
unfolding wait_for_ready
wait_for_ready-Allocation expected deadline [] ids v h = cc
wait_for_ready-Allocation expected deadline (t ∷ rounds) ids v h =
    let n = length (sort (allocatable_workers t.registry)) in
    elim (Bool-cases (leb (required expected) n)) [
      | inl e ↦
          let same_ids : handed_out expected t.registry ≡ ids = ground arith in
          inl (
            subst (Allocation expected t.registry) same_ids
              (handed_out-Allocation expected t.registry v.0 (ground arith)))
      | inr e ↦ elim (Bool-cases (deadline - t.now == 0)) [
        | inl z ↦ ground arith
        | inr z ↦ inr (wait_for_ready-Allocation expected deadline rounds ids v.1 (ground arith))
      ]
    ]

-- A timeout is reported by a round at or after the deadline that found too few workers, with the
-- number that was needed and the number found.
pub wait_for_ready-timed_out :
    (expected deadline : ℕ) (rounds : List Round) (needed found : ℕ)
    → wait_for_ready expected deadline rounds ≡ timed_out needed found
    → (needed ≡ required expected)
      × Any
          (λ t.
            (deadline ≤ t.now)
            × (found ≡ length (allocatable_workers t.registry))
            × (found < needed))
          rounds
unfolding wait_for_ready
wait_for_ready-timed_out expected deadline [] needed found h = cc
wait_for_ready-timed_out expected deadline (t ∷ rounds) needed found h =
    let n = length (sort (allocatable_workers t.registry)) in
    let size = length-sort (allocatable_workers t.registry) in
    elim (Bool-cases (leb (required expected) n)) [
      | inl e ↦ ground arith
      | inr e ↦ elim (Bool-cases (deadline - t.now == 0)) [
        | inl z ↦ (ground arith, inl (ground (arith, size)))
        | inr z ↦
            let ih =
              wait_for_ready-timed_out expected deadline rounds needed found (ground arith) in
            (ih.0, inr ih.1)
      ]
    ]

-- The barrier returns by the first round at or after the deadline, and before it by the first
-- round that finds enough workers.
pub wait_for_ready-ne-waiting :
    (expected deadline : ℕ) (rounds : List Round)
    → Any
        (λ t. (deadline ≤ t.now) ⊎ (required expected ≤ length (allocatable_workers t.registry)))
        rounds
    → wait_for_ready expected deadline rounds ≢ waiting
unfolding wait_for_ready
wait_for_ready-ne-waiting expected deadline [] a = elim a [ ]
wait_for_ready-ne-waiting expected deadline (t ∷ rounds) (inl a) =
    ground (arith, length-sort (allocatable_workers t.registry))
wait_for_ready-ne-waiting expected deadline (t ∷ rounds) (inr a) =
    ground (arith, wait_for_ready-ne-waiting expected deadline rounds a)
