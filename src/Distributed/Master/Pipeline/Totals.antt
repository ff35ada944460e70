-- ===== src/Distributed/Master/Pipeline/Totals.antt =====
-- What the final report of src/distributed/master/pipeline.rs says of the batches.
use strobengine.Prelude.{
  ℕ, ◌<◌, ◌≤◌, ◌+◌, ◌%◌, ◌^◌, ◌≡◌, refl, sym, ap, ◌∙◌, inl, inr, Bool, true, false, Option, some,
  List, [], ◌∷◌, map, arith, All, Bool-cases, is_empty,
}
use strobengine.Prelude.Words.{add64, i64_lt}
use strobengine.Prelude.Maps.{nat_eq}
use strobengine.Prelude.Order.{place, sort_by}
use strobengine.Prelude.Totals.{sum_where, map_total}
use strobengine.Prelude.Ascending.{Ascending}
use strobengine.Prelude.Floats.{Floats}
use strobengine.Text.Compare.{bytes_eq}
use strobengine.Text.Utf8.{Bytes}
use strobengine.Distributed.Master.Metrics.{MetricBatch, Metrics}
use strobengine.Distributed.Master.Metrics.Counts.{requests, count, batch_count}
use strobengine.Distributed.Master.Pipeline.{
  TelemetryPipeline, new, run_pipeline, epoch_of, epoch_ms,
}
use strobengine.Distributed.Master.Pipeline.Counts.{from_worker, worker_counts, cumulative_counts}
use strobengine.Distributed.Master.Pipeline.Report.{
  finalize, worker_shares, worker_share, share_before,
}

-- A time from 1970 on lies in its epoch, which starts at a whole second.
pub epoch_of_lem :
    (t : ℕ)
    → t < 2 ^ 63
    → (epoch_of t ≤ t) × (t < epoch_of t + epoch_ms) × (epoch_of t % epoch_ms ≡ 0)
unfolding epoch_of
epoch_of_lem t h = ground arith

sum-swap :
    {A : Type 0} (f : A → ℕ) (acc : ℕ) (a b : A) (xs : List A)
    → sum_where (λ x. true) f acc (a ∷ b ∷ xs) ≡ sum_where (λ x. true) f acc (b ∷ a ∷ xs)
unfolding sum_where
sum-swap f acc a b xs = ap (λ n. sum_where (λ x. true) f n xs) (swap (f a) (f b))
  where
    swap : (m n : ℕ) → add64 (add64 acc m) n ≡ add64 (add64 acc n) m
    swap m n = omega arith

sum-place :
    {A : Type 0} (before : A → A → Bool) (f : A → ℕ) (acc : ℕ) (a : A) (xs : List A)
    → sum_where (λ x. true) f acc (place before a xs) ≡ sum_where (λ x. true) f acc (a ∷ xs)
unfolding place sum_where
sum-place before f acc a [] = refl
sum-place before f acc a (b ∷ bs) = elim (Bool-cases (before b a)) [
  | inl t ↦ rw (t, place) (sum-place before f (add64 acc (f b)) a bs ∙ sum-swap f acc b a bs)
  | inr t ↦ rw (t, place) refl
]

sum-sort_by :
    {A : Type 0} (before : A → A → Bool) (f : A → ℕ) (acc : ℕ) (xs : List A)
    → sum_where (λ x. true) f acc (sort_by before xs) ≡ sum_where (λ x. true) f acc xs
unfolding sort_by sum_where
sum-sort_by before f acc [] = refl
sum-sort_by before f acc (a ∷ xs) =
    sum-place before f acc a (sort_by before xs) ∙ sum-sort_by before f (add64 acc (f a)) xs

sum-from_worker :
    (f : MetricBatch → ℕ) (acc : ℕ) (bs : List MetricBatch)
    → All (λ b. is_empty b.worker_id ≡ false) bs
    → sum_where (from_worker (λ id. true)) f acc bs ≡ sum_where (λ b. true) f acc bs
unfolding sum_where
sum-from_worker f acc [] h = refl
sum-from_worker f acc (b ∷ bs) h = rw h.0 (sum-from_worker f (add64 acc (f b)) bs h.1)

module _ (R : Floats) where
  sum_shares :
      (total : ℕ) (secs : R.F) (acc : ℕ) (m : List (Bytes × Metrics R))
      → sum_where (λ s. true) (λ s. s.total_requests) acc (map (worker_share R total secs) m)
        ≡ map_total (count R requests) (λ id. true) acc m
  unfolding sum_where worker_share count
  sum_shares total secs acc [] = refl
  sum_shares total secs acc ((id, v) ∷ m) = sum_shares total secs (add64 acc v.total) m

  -- When every batch names its worker and none makes the pipeline panic, the requests of the
  -- workers' shares in the final report add up to the report's total, which is the sum of what the
  -- batches report.
  pub shares_add_up :
      (id : Bytes) (width window : ℕ) (class_name : ℕ → Option Bytes) (bs : List MetricBatch)
      (end : TelemetryPipeline R)
      → All (λ b. is_empty b.worker_id ≡ false) bs
      → (run_pipeline R (new R id width window) bs).0 ≡ some end
      → (sum_where (λ s. true) (λ s. s.total_requests) 0 (finalize R class_name end).worker_shares
          ≡ (finalize R class_name end).total_requests)
        × ((finalize R class_name end).total_requests
            ≡ sum_where (λ b. true) (λ b. b.total_requests) 0 bs)
  shares_add_up id width window class_name bs p h e =
      let whole = cumulative_counts R id width window requests bs p e in
      unfold finalize worker_shares count batch_count in
      (
        sum-sort_by (share_before R) (λ s. s.total_requests) 0 _
            ∙ sum_shares p.cumulative.total _ 0 p.workers
            ∙ worker_counts R id width window requests (λ i. true) bs p e
            ∙ sum-from_worker (λ b. b.total_requests) 0 bs h
            ∙ sym whole,
        whole,
      )

  -- Each number comes before all the later ones, as i64.
  abbrev pub InOrder : List ℕ → Type 0
  InOrder [] = Unit
  InOrder (k ∷ ks) = All (λ j. i64_lt k j ≡ true) ks × InOrder ks
