-- ===== src/Distributed/Master/Metrics/Merging.antt =====
-- What `merge` of src/distributed/master/pipeline.rs adds to each counter.
use strobengine.Prelude.{
  ℕ, zero, suc, ◌≡◌, refl, sym, ap, subst, ◌∙◌, inl, inr, List, [], ◌∷◌, arith, ltb, ◌==◌, ==_iff,
  if◌then◌else◌, length, take, Bool-cases,
}
use strobengine.Prelude.Words.{add64}
use strobengine.Prelude.Maps.{
  nat_eq, lookup, upsert, or_default, lookup-upsert, DistinctKeys, Absent, upsert-DistinctKeys,
  lookup-Absent,
}
use strobengine.Prelude.Floats.{Floats}
use strobengine.Distributed.Master.Metrics.{Metrics, add_counts, merge_errors, merge}
use strobengine.Distributed.Master.Metrics.Counts.{
  Counter, requests, successes, failures, received, samples, bucket, errors_of, count, nth,
  AllBelow, ErrorsBelow, IsMetrics, add_counts-length, add_counts-AllBelow, nth-add_counts,
  upsert-ErrorsBelow, lookup-ErrorsBelow,
}

take_whole : (n : ℕ) (ys : List ℕ) → length ys ≡ n → take n ys ≡ ys
take_whole zero [] h = refl
take_whole zero (y ∷ ys) h = ground arith
take_whole (suc n) [] h = refl
take_whole (suc n) (y ∷ ys) h = ap (◌∷◌ y) (take_whole n ys (omega arith))

nth-width :
    (n : ℕ) (ys : List ℕ) (i : ℕ) → length ys ≡ n → (if ltb i n then nth ys i else 0) ≡ nth ys i
nth-width n [] i h = ground arith
nth-width zero (y ∷ ys) i h = ground arith
nth-width (suc n) (y ∷ ys) zero h = ground arith
nth-width (suc n) (y ∷ ys) (suc i) h = ground (arith, nth-width n ys i (omega arith))

nth-merge :
    (n : ℕ) (xs ys : List ℕ) (i : ℕ)
    → length xs ≡ n
    → length ys ≡ n
    → AllBelow xs
    → nth (add_counts xs ys) i ≡ add64 (nth xs i) (nth ys i)
nth-merge n xs ys i h k b =
    ap (λ zs. nth (add_counts xs zs) i) (sym (take_whole n ys k))
    ∙ nth-add_counts n xs ys i h b
    ∙ ap (λ v. add64 (nth xs i) v) (nth-width n ys i k)

lookup-merge_errors :
    (class : ℕ) (m es : List (ℕ × ℕ))
    → ErrorsBelow m
    → DistinctKeys es
    → or_default (lookup class (merge_errors m es)) 0
      ≡ add64 (or_default (lookup class m) 0) (or_default (lookup class es) 0)
unfolding merge_errors lookup
lookup-merge_errors class m [] h d = omega (arith, lookup-ErrorsBelow class m h)
lookup-merge_errors class m ((k, n) ∷ es) h d =
    let ih =
      lookup-merge_errors class (upsert k 0 (λ v. add64 v n) m) es (upsert-ErrorsBelow k n m h)
        d.1 in
    let new = lookup-upsert k class 0 (λ v. add64 v n) m in
    elim (Bool-cases (k == class)) [
      | inl t ↦
          let gone = lookup-Absent class es (subst (λ c. Absent c es) ((==_iff k class).0 t) d.0) in
          ground (arith, ih, new, gone)
      | inr t ↦ ground (arith, ih, new)
    ]

merge_errors-ErrorsBelow : (m es : List (ℕ × ℕ)) → ErrorsBelow m → ErrorsBelow (merge_errors m es)
unfolding merge_errors
merge_errors-ErrorsBelow m [] h = h
merge_errors-ErrorsBelow m ((k, n) ∷ es) h =
    merge_errors-ErrorsBelow (upsert k 0 (λ v. add64 v n) m) es (upsert-ErrorsBelow k n m h)

merge_errors-DistinctKeys :
    (m es : List (ℕ × ℕ)) → DistinctKeys m → DistinctKeys (merge_errors m es)
unfolding merge_errors
merge_errors-DistinctKeys m [] h = h
merge_errors-DistinctKeys m ((k, n) ∷ es) h =
    merge_errors-DistinctKeys (upsert k 0 (λ v. add64 v n) m) es
      (upsert-DistinctKeys k 0 (λ v. add64 v n) m h)

module _ (R : Floats) where
  pub merge-IsMetrics :
      (width : ℕ) (m other : Metrics R) → IsMetrics R width m → IsMetrics R width (merge R m other)
  unfolding merge
  merge-IsMetrics width m other h = record {
    full = add_counts-length m.buckets other.buckets ∙ h.full;
    buckets_below = add_counts-AllBelow m.buckets other.buckets h.buckets_below;
    samples_below = omega arith;
    errors_below = merge_errors-ErrorsBelow m.errors other.errors h.errors_below;
    distinct = merge_errors-DistinctKeys m.errors other.errors h.distinct;
  }

  -- Merging metrics adds up every counter.
  pub count-merge :
      (width : ℕ) (c : Counter) (m other : Metrics R)
      → IsMetrics R width m
      → IsMetrics R width other
      → count R c (merge R m other) ≡ add64 (count R c m) (count R c other)
  unfolding merge count
  count-merge width requests m other h k = refl
  count-merge width successes m other h k = refl
  count-merge width failures m other h k = refl
  count-merge width received m other h k = refl
  count-merge width samples m other h k = refl
  count-merge width (bucket i) m other h k =
      nth-merge width m.buckets other.buckets i h.full k.full h.buckets_below
  count-merge width (errors_of class) m other h k =
      lookup-merge_errors class m.errors other.errors h.errors_below k.distinct
