-- ===== src/Distributed/Master/Metrics/Counts.antt =====
-- What `merge_batch` of src/distributed/master/pipeline.rs adds to each counter.
use strobengine.Prelude.{
  ℕ, zero, suc, ◌<◌, ◌≡◌, refl, ◌∙◌, ap, inl, inr, List, [], ◌∷◌, none, some, arith, ltb, ◌==◌,
  if◌then◌else◌, length, take, replicate, get_elem?, All, Bool-cases, Option-cases,
}
use strobengine.Prelude.Words.{u64_mod, add64}
use strobengine.Prelude.Maps.{
  nat_eq, lookup, upsert, or_default, lookup-upsert, DistinctKeys, upsert-DistinctKeys,
}
use strobengine.Prelude.Floats.{Floats}
use strobengine.Distributed.Master.Metrics.{
  ErrorBreakdown, MetricBatch, Metrics, add_counts, add_errors, new_metrics, merge_latency,
  merge_batch,
}

pub data Counter : Type 0 where
  requests successes failures received samples : Counter
  bucket : ℕ → Counter
  errors_of : ℕ → Counter

-- The errors of one class, after `acc`.
unfoldable pub class_total : ℕ → ℕ → List ErrorBreakdown → ℕ
class_total class acc [] = acc
class_total class acc (e ∷ es) =
    class_total class (if e.error_class == class then add64 acc e.count else acc) es

abbrev pub nth : List ℕ → ℕ → ℕ
nth ns i = or_default (get_elem? ns i) 0

-- What a batch reports, in a pipeline of `width` buckets.
unfoldable pub batch_count : ℕ → Counter → MetricBatch → ℕ
batch_count width requests b = b.total_requests
batch_count width successes b = b.success_count
batch_count width failures b = b.failure_count
batch_count width received b = b.bytes_received
batch_count width samples b = elim b.latency [ none ↦ 0 | some l ↦ l.sample_count ]
batch_count width (bucket i) b = elim b.latency [
  | none ↦ 0
  | some l ↦ if ltb i width then nth l.bucket_counts i else 0
]
batch_count width (errors_of class) b = class_total class 0 b.errors

abbrev pub AllBelow : List ℕ → Type 0
AllBelow = All (λ n. n < u64_mod)

pub add_counts-length : (xs ys : List ℕ) → length (add_counts xs ys) ≡ length xs
unfolding add_counts
add_counts-length [] ys = refl
add_counts-length (x ∷ xs) [] = refl
add_counts-length (x ∷ xs) (y ∷ ys) = ap suc (add_counts-length xs ys)

pub add_counts-AllBelow : (xs ys : List ℕ) → AllBelow xs → AllBelow (add_counts xs ys)
unfolding add_counts
add_counts-AllBelow [] ys h = tt
add_counts-AllBelow (x ∷ xs) [] h = h
add_counts-AllBelow (x ∷ xs) (y ∷ ys) h = (omega arith, add_counts-AllBelow xs ys h.1)

pub nth-AllBelow : (xs : List ℕ) (i : ℕ) → AllBelow xs → nth xs i < u64_mod
nth-AllBelow [] i h = omega arith
nth-AllBelow (x ∷ xs) zero h = h.0
nth-AllBelow (x ∷ xs) (suc i) h = nth-AllBelow xs i h.1

-- A histogram keeps its width; what a batch reports beyond it is dropped.
pub nth-add_counts :
    (width : ℕ) (xs ys : List ℕ) (i : ℕ)
    → length xs ≡ width
    → AllBelow xs
    → nth (add_counts xs (take width ys)) i ≡ add64 (nth xs i) (if ltb i width then nth ys i else 0)
unfolding add_counts
nth-add_counts zero [] ys i h k = ground arith
nth-add_counts zero (x ∷ xs) ys i h k = ground arith
nth-add_counts (suc w) [] ys i h k = ground arith
nth-add_counts (suc w) (x ∷ xs) [] i h k = ground (arith, nth-AllBelow (x ∷ xs) i k)
nth-add_counts (suc w) (x ∷ xs) (y ∷ ys) zero h k = ground arith
nth-add_counts (suc w) (x ∷ xs) (y ∷ ys) (suc i) h k =
    ground (arith, nth-add_counts w xs ys i (omega arith) k.1)

class_total-add64 :
    (class a x : ℕ) (es : List ErrorBreakdown)
    → class_total class (add64 a x) es ≡ add64 (class_total class a es) x
unfolding class_total
class_total-add64 class a x [] = refl
class_total-add64 class a x (e ∷ es) = elim (Bool-cases (e.error_class == class)) [
  | inl t ↦
      rw (t, class_total)
        (ap (λ n. class_total class n es) swap ∙ class_total-add64 class (add64 a e.count) x es)
  | inr t ↦ rw (t, class_total) (class_total-add64 class a x es)
]
  where
    swap : add64 (add64 a x) e.count ≡ add64 (add64 a e.count) x
    swap = omega arith

class_total_from :
    (class a : ℕ) (es : List ErrorBreakdown)
    → a < u64_mod
    → class_total class a es ≡ add64 a (class_total class 0 es)
class_total_from class a es h =
    ap (λ n. class_total class n es) (unwrapped a h)
    ∙ class_total-add64 class 0 a es
    ∙ flip (class_total class 0 es) a
  where
    unwrapped : (n : ℕ) → n < u64_mod → n ≡ add64 0 n
    unwrapped n k = omega arith

    flip : (m n : ℕ) → add64 m n ≡ add64 n m
    flip m n = omega arith

lookup-add_errors :
    (class : ℕ) (m : List (ℕ × ℕ)) (es : List ErrorBreakdown)
    → or_default (lookup class (add_errors m es)) 0
      ≡ class_total class (or_default (lookup class m) 0) es
unfolding add_errors class_total
lookup-add_errors class m [] = refl
lookup-add_errors class m (e ∷ es) =
    lookup-add_errors class (upsert e.error_class 0 (λ n. add64 n e.count) m) es
    ∙ ap (λ n. class_total class n es) start
  where
    start : or_default (lookup class (upsert e.error_class 0 (λ n. add64 n e.count) m)) 0 ≡ (
        if e.error_class == class
        then add64 (or_default (lookup class m) 0) e.count
        else or_default (lookup class m) 0)
    start = ground (arith, lookup-upsert e.error_class class 0 (λ n. add64 n e.count) m)

abbrev pub ErrorsBelow : List (ℕ × ℕ) → Type 0
ErrorsBelow = All (λ p. p.1 < u64_mod)

pub upsert-ErrorsBelow :
    (k x : ℕ) (m : List (ℕ × ℕ)) → ErrorsBelow m → ErrorsBelow (upsert k 0 (λ n. add64 n x) m)
unfolding upsert
upsert-ErrorsBelow k x [] h = (omega arith, tt)
upsert-ErrorsBelow k x ((j, n) ∷ m) h = elim (Bool-cases (j == k)) [
  | inl t ↦ rw (t, upsert) (omega arith, h.1)
  | inr t ↦ rw (t, upsert) (h.0, upsert-ErrorsBelow k x m h.1)
]

add_errors-ErrorsBelow :
    (m : List (ℕ × ℕ)) (es : List ErrorBreakdown) → ErrorsBelow m → ErrorsBelow (add_errors m es)
unfolding add_errors
add_errors-ErrorsBelow m [] h = h
add_errors-ErrorsBelow m (e ∷ es) h =
    add_errors-ErrorsBelow (upsert e.error_class 0 (λ n. add64 n e.count) m) es
      (upsert-ErrorsBelow e.error_class e.count m h)

add_errors-DistinctKeys :
    (m : List (ℕ × ℕ)) (es : List ErrorBreakdown) → DistinctKeys m → DistinctKeys (add_errors m es)
unfolding add_errors
add_errors-DistinctKeys m [] h = h
add_errors-DistinctKeys m (e ∷ es) h =
    add_errors-DistinctKeys (upsert e.error_class 0 (λ n. add64 n e.count) m) es
      (upsert-DistinctKeys e.error_class 0 (λ n. add64 n e.count) m h)

pub lookup-ErrorsBelow :
    (class : ℕ) (m : List (ℕ × ℕ)) → ErrorsBelow m → or_default (lookup class m) 0 < u64_mod
unfolding lookup
lookup-ErrorsBelow class [] h = omega arith
lookup-ErrorsBelow class ((j, n) ∷ m) h = elim (Bool-cases (j == class)) [
  | inl t ↦ rw (t, lookup) h.0
  | inr t ↦ rw (t, lookup) (lookup-ErrorsBelow class m h.1)
]

replicate-AllBelow : (n : ℕ) → AllBelow (replicate n 0)
replicate-AllBelow zero = tt
replicate-AllBelow (suc n) = (omega arith, replicate-AllBelow n)

length-replicate : (n : ℕ) → length (replicate {A = ℕ} n 0) ≡ n
length-replicate zero = refl
length-replicate (suc n) = ap suc (length-replicate n)

nth-replicate : (n i : ℕ) → nth (replicate n 0) i ≡ 0
nth-replicate zero i = refl
nth-replicate (suc n) zero = refl
nth-replicate (suc n) (suc i) = nth-replicate n i

module _ (R : Floats) where
  unfoldable pub count : Counter → Metrics R → ℕ
  count requests m = m.total
  count successes m = m.success
  count failures m = m.failure
  count received m = m.bytes
  count samples m = m.sample_count
  count (bucket i) m = nth m.buckets i
  count (errors_of class) m = or_default (lookup class m.errors) 0

  -- The histogram has its width, the counters that a batch may leave out are words, and each
  -- class of errors is counted once.
  pub record IsMetrics (width : ℕ) (m : Metrics R) : Type 0 where
    pub full : length m.buckets ≡ width
    pub buckets_below : AllBelow m.buckets
    pub samples_below : m.sample_count < u64_mod
    pub errors_below : ErrorsBelow m.errors
    pub distinct : DistinctKeys m.errors

  pub new_metrics-IsMetrics : (width : ℕ) → IsMetrics width (new_metrics R width)
  unfolding new_metrics
  new_metrics-IsMetrics width = record {
    full = length-replicate width;
    buckets_below = replicate-AllBelow width;
    samples_below = omega arith;
    errors_below = tt;
    distinct = tt;
  }

  pub count-new_metrics : (c : Counter) (width : ℕ) → count c (new_metrics R width) ≡ 0
  unfolding count new_metrics lookup
  count-new_metrics requests width = refl
  count-new_metrics successes width = refl
  count-new_metrics failures width = refl
  count-new_metrics received width = refl
  count-new_metrics samples width = refl
  count-new_metrics (bucket i) width = nth-replicate width i
  count-new_metrics (errors_of class) width = refl

  -- Merging a batch keeps the width of the histogram and the bounds of the words.
  pub merge_batch-IsMetrics :
      (width : ℕ) (m : Metrics R) (b : MetricBatch)
      → IsMetrics width m
      → IsMetrics width (merge_batch R m b width)
  unfolding merge_batch merge_latency
  merge_batch-IsMetrics width m b h = elim (Option-cases b.latency) [
    | inl e ↦
        rw (e, merge_latency)
          (record {
            full = h.full;
            buckets_below = h.buckets_below;
            samples_below = h.samples_below;
            errors_below = add_errors-ErrorsBelow m.errors b.errors h.errors_below;
            distinct = add_errors-DistinctKeys m.errors b.errors h.distinct;
          })
    | inr (l, e) ↦
        rw (e, merge_latency)
          (record {
            full = add_counts-length m.buckets (take width l.bucket_counts) ∙ h.full;
            buckets_below =
                add_counts-AllBelow m.buckets (take width l.bucket_counts) h.buckets_below;
            samples_below = omega arith;
            errors_below = add_errors-ErrorsBelow m.errors b.errors h.errors_below;
            distinct = add_errors-DistinctKeys m.errors b.errors h.distinct;
          })
  ]

  -- Merging a batch adds to each counter what the batch reports of it.
  pub count-merge_batch :
      (width : ℕ) (c : Counter) (m : Metrics R) (b : MetricBatch)
      → IsMetrics width m
      → count c (merge_batch R m b width) ≡ add64 (count c m) (batch_count width c b)
  unfolding merge_batch merge_latency count batch_count
  count-merge_batch width requests m b h = elim (Option-cases b.latency) [
    | inl e ↦ rw (e, merge_latency) refl
    | inr (l, e) ↦ rw (e, merge_latency) refl
  ]
  count-merge_batch width successes m b h = elim (Option-cases b.latency) [
    | inl e ↦ rw (e, merge_latency) refl
    | inr (l, e) ↦ rw (e, merge_latency) refl
  ]
  count-merge_batch width failures m b h = elim (Option-cases b.latency) [
    | inl e ↦ rw (e, merge_latency) refl
    | inr (l, e) ↦ rw (e, merge_latency) refl
  ]
  count-merge_batch width received m b h = elim (Option-cases b.latency) [
    | inl e ↦ rw (e, merge_latency) refl
    | inr (l, e) ↦ rw (e, merge_latency) refl
  ]
  count-merge_batch width samples m b h = elim (Option-cases b.latency) [
    | inl e ↦ rw (e, merge_latency) (omega (arith, h.samples_below))
    | inr (l, e) ↦ rw (e, merge_latency) refl
  ]
  count-merge_batch width (bucket i) m b h = elim (Option-cases b.latency) [
    | inl e ↦ rw (e, merge_latency) (omega (arith, nth-AllBelow m.buckets i h.buckets_below))
    | inr (l, e) ↦
        rw (e, merge_latency)
          (nth-add_counts width m.buckets l.bucket_counts i h.full h.buckets_below)
  ]
  count-merge_batch width (errors_of class) m b h = elim (Option-cases b.latency) [
    | inl e ↦ rw (e, merge_latency) (errors m.errors h.errors_below)
    | inr (l, e) ↦ rw (e, merge_latency) (errors m.errors h.errors_below)
  ]
    where
      errors :
          (es : List (ℕ × ℕ))
          → ErrorsBelow es
          → or_default (lookup class (add_errors es b.errors)) 0
            ≡ add64 (or_default (lookup class es) 0) (class_total class 0 b.errors)
      errors es k =
          lookup-add_errors class es b.errors
          ∙ class_total_from class (or_default (lookup class es) 0) b.errors
              (lookup-ErrorsBelow class es k)
