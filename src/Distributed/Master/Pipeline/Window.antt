-- ===== src/Distributed/Master/Pipeline/Window.antt =====
-- What the sliding window of src/distributed/master/pipeline.rs holds.
use strobengine.Prelude.{
  ℕ, ◌+◌, ◌/◌, ◌^◌, ◌≤◌, ◌<◌, ◌≡◌, refl, sym, ap, subst, if◌then◌else◌, ◌∙◌, inl, inr, Bool, false,
  some, none, Option, List, [], ◌∷◌, max, All, Bool-cases, leb, ltb, ◌&&◌, arith,
}
use strobengine.Prelude.Words.{add64, sub64, mul64, i64_lt}
use strobengine.Prelude.Maps.{nat_eq}
use strobengine.Prelude.Totals.{sum_where, map_total}
use strobengine.Prelude.Floats.{Floats}
use strobengine.Text.Utf8.{Bytes}
use strobengine.Distributed.Master.Metrics.{MetricBatch, Metrics, new_metrics, merge}
use strobengine.Distributed.Master.Metrics.Counts.{
  Counter, count, batch_count, IsMetrics, new_metrics-IsMetrics, count-new_metrics,
}
use strobengine.Distributed.Master.Metrics.Merging.{merge-IsMetrics, count-merge}
use strobengine.Distributed.Master.Pipeline.{
  TelemetryPipeline, LiveSnapshot, absorb, at_least_one, ingest, is_epoch, snapshot, snapshot_of,
  new, run_pipeline, epoch_of, epoch_ms, in_range, merge_entries, merge_range, window_start,
  window_metrics,
}
use strobengine.Distributed.Master.Pipeline.Counts.{new-Inv, run_pipeline-Inv, epoch_counts}

-- The batch's second is one of the last `window` seconds, of which `now` is the last.
abbrev pub is_recent : ℕ → ℕ → MetricBatch → Bool
is_recent window now b =
    leb (b.window_start_unix_ms / 1000) now && ltb now (b.window_start_unix_ms / 1000 + window)

in_range-seconds :
    (window t e : ℕ)
    → 1 ≤ window
    → window ≤ 2 ^ 53
    → t < 2 ^ 63
    → e < 2 ^ 63
    → in_range (sub64 (epoch_of t) (mul64 (sub64 window 1) epoch_ms)) (epoch_of t) (epoch_of e)
      ≡ leb (e / 1000) (t / 1000) && ltb (t / 1000) (e / 1000 + window)
unfolding in_range epoch_of
in_range-seconds window t e a b c d = ground arith

no_panic :
    (window t : ℕ)
    → 1 ≤ window
    → window ≤ 2 ^ 53
    → t < 2 ^ 63
    → i64_lt (epoch_of t) (sub64 (epoch_of t) (mul64 (sub64 window 1) epoch_ms)) ≡ false
unfolding epoch_of
no_panic window t a b c = ground arith

-- The window's size in seconds, and the times of the batches, from 1970 on.
abbrev pub IsWindow : ℕ → Type 0
IsWindow window = (1 ≤ window) × (window ≤ 2 ^ 53)

abbrev pub IsDated : List MetricBatch → Type 0
IsDated = All (λ b. b.window_start_unix_ms < 2 ^ 63)

sum_where-same :
    {A : Type 0} (test other : A → Bool) (f : A → ℕ) (acc : ℕ) (xs : List A)
    → All (λ x. test x ≡ other x) xs
    → sum_where test f acc xs ≡ sum_where other f acc xs
unfolding sum_where
sum_where-same test other f acc [] h = refl
sum_where-same test other f acc (x ∷ xs) h =
    sum_where-same test other f (if test x then add64 acc (f x) else acc) xs h.1
    ∙ ap (λ t. sum_where other f (if t then add64 acc (f x) else acc) xs) h.0

All-in_range :
    (window t : ℕ) (bs : List MetricBatch)
    → IsWindow window
    → t < 2 ^ 63
    → IsDated bs
    → All
        (λ b.
          in_range
            (sub64 (epoch_of t) (mul64 (sub64 window 1) epoch_ms))
            (epoch_of t)
            (epoch_of b.window_start_unix_ms)
          ≡ is_recent window (t / 1000) b)
        bs
All-in_range window t [] w d k = tt
All-in_range window t (b ∷ bs) w d k = (
  in_range-seconds window t b.window_start_unix_ms w.0 w.1 d k.0,
  All-in_range window t bs w d k.1,
)

module _ (R : Floats) where
  merge_entries-count :
      (width : ℕ) (c : Counter) (start epoch : ℕ) (w : Metrics R) (m : List (ℕ × Metrics R))
      → IsMetrics R width w
      → All (λ q. IsMetrics R width q.1) m
      → count R c (merge_entries R start epoch w m)
        ≡ map_total (count R c) (in_range start epoch) (count R c w) m
  unfolding merge_entries sum_where
  merge_entries-count width c start epoch w [] h k = refl
  merge_entries-count width c start epoch w ((e, v) ∷ m) h k =
      elim (Bool-cases (in_range start epoch e)) [
        | inl t ↦
            rw (t, merge_entries, sum_where)
              (merge_entries-count width c start epoch (merge R w v) m
                  (merge-IsMetrics R width w v h) k.1
                ∙ ap (λ n. map_total (count R c) (in_range start epoch) n m)
                    (count-merge R width c w v h k.0))
        | inr t ↦
            rw (t, merge_entries, sum_where) (merge_entries-count width c start epoch w m h k.1)
      ]

  window_metrics-runs :
      (p : TelemetryPipeline R) (t : ℕ)
      → IsWindow p.window_epochs
      → t < 2 ^ 63
      → window_metrics R p (epoch_of t)
        ≡ some (
            merge_entries R
              (sub64 (epoch_of t) (mul64 (sub64 p.window_epochs 1) epoch_ms))
              (epoch_of t)
              (new_metrics R p.bucket_count)
              p.epochs)
  unfolding window_metrics window_start merge_range
  window_metrics-runs p t w h = rw (no_panic p.window_epochs t w.0 w.1 h, merge_range) refl

  snapshot-runs :
      (p : TelemetryPipeline R) (t : ℕ)
      → IsWindow p.window_epochs
      → t < 2 ^ 63
      → (s : LiveSnapshot R) × (snapshot R p (epoch_of t) ≡ some s)
  unfolding snapshot
  snapshot-runs p t w h = (
    snapshot_of R p (epoch_of t) (
        merge_entries R (sub64 (epoch_of t) (mul64 (sub64 p.window_epochs 1) epoch_ms)) (epoch_of t)
          (new_metrics R p.bucket_count) p.epochs),
    rw (window_metrics-runs p t w h, snapshot) refl,
  )

  -- A batch from 1970 on does not make the pipeline panic.
  ingest-runs :
      (p : TelemetryPipeline R) (b : MetricBatch)
      → IsWindow p.window_epochs
      → b.window_start_unix_ms < 2 ^ 63
      → (q : TelemetryPipeline R) × (o : Option (LiveSnapshot R)) × (ingest R p b ≡ some (q, o))
        × (q.window_epochs ≡ p.window_epochs)
  unfolding ingest
  ingest-runs p b w h =
      let e = epoch_of b.window_start_unix_ms in
      let r = absorb R p b e in
      let after = record r { last_published_epoch = some e } in
      let (s, taken) = snapshot-runs after b.window_start_unix_ms (unfold absorb in w) h in
      elim (Bool-cases (is_epoch r.last_published_epoch e)) [
        | inl t ↦ (r, none, rw (t, ingest) refl, (unfold absorb in refl))
        | inr t ↦ (after, some s, rw (t, taken, ingest) refl, (unfold absorb in refl))
      ]

  -- Batches from 1970 on do not make the pipeline panic.
  pub run_pipeline-runs :
      (p : TelemetryPipeline R) (bs : List MetricBatch)
      → IsWindow p.window_epochs
      → IsDated bs
      → (end : TelemetryPipeline R) × ((run_pipeline R p bs).0 ≡ some end)
        × (end.window_epochs ≡ p.window_epochs)
  unfolding run_pipeline
  run_pipeline-runs p [] w h = (p, refl, refl)
  run_pipeline-runs p (b ∷ bs) w h =
      let (q, o, i, same) = ingest-runs p b w h.0 in
      let (end, e, kept) = run_pipeline-runs q bs (subst IsWindow (sym same) w) h.1 in
      (end, rw (i, run_pipeline) e, kept ∙ same)

  pub new-runs :
      (id : Bytes) (width window : ℕ) (bs : List MetricBatch)
      → IsWindow window
      → IsDated bs
      → (end : TelemetryPipeline R) × ((run_pipeline R (new R id width window) bs).0 ≡ some end)
        × (end.window_epochs ≡ window)
  new-runs id width window bs w h =
      let same : (new R id width window).window_epochs ≡ window =
        unfold new at_least_one in ground (arith, w.0, w.1) in
      let (end, e, kept) =
        run_pipeline-runs (new R id width window) bs (subst IsWindow (sym same) w) h in
      (end, e, kept ∙ same)

  -- After any batches with times from 1970 on, and with a window of 1 to 2 ^ 53 seconds, the
  -- pipeline has not panicked and has a window that ends with the second of a given time; each
  -- counter of it is the sum of what those batches report whose second is one of the last `window`
  -- seconds up to that one.
  pub window_counts :
      (id : Bytes) (width window : ℕ) (c : Counter) (t : ℕ) (bs : List MetricBatch)
      → IsWindow window
      → t < 2 ^ 63
      → IsDated bs
      → (end : TelemetryPipeline R) × ((run_pipeline R (new R id width window) bs).0 ≡ some end)
        × (w : Metrics R) × (window_metrics R end (epoch_of t) ≡ some w)
        × (count R c w ≡ sum_where (is_recent window (t / 1000)) (batch_count (max width 1) c) 0 bs)
  window_counts id width window c t bs w d h =
      let (p, e, size) = new-runs id width window bs w h in
      let start = sub64 (epoch_of t) (mul64 (sub64 window 1) epoch_ms) in
      let inv = run_pipeline-Inv R (new R id width window) bs p e (new-Inv R id width window) in
      (
        p,
        e,
        merge_entries R start (epoch_of t) (new_metrics R p.bucket_count) p.epochs,
        window_metrics-runs p t (subst IsWindow (sym size) w) d
            ∙ ap
                (λ n. some (
                  merge_entries R (sub64 (epoch_of t) (mul64 (sub64 n 1) epoch_ms)) (epoch_of t)
                    (new_metrics R p.bucket_count) p.epochs))
                size,
        merge_entries-count p.bucket_count c start (epoch_of t) (new_metrics R p.bucket_count)
              p.epochs (new_metrics-IsMetrics R p.bucket_count) inv.by_epoch
            ∙ ap (λ n. map_total (count R c) (in_range start (epoch_of t)) n p.epochs)
                (count-new_metrics R c p.bucket_count)
            ∙ epoch_counts R id width window c (in_range start (epoch_of t)) bs p e
            ∙ sum_where-same _ _ (batch_count (max width 1) c) 0 bs
                (All-in_range window t bs w d h),
      )
