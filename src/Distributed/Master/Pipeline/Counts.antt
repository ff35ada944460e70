-- ===== src/Distributed/Master/Pipeline/Counts.antt =====
-- What the counters of `TelemetryPipeline`, src/distributed/master/pipeline.rs, hold after any
-- batches.
use strobengine.Prelude.{
  ℕ, ◌≡◌, refl, ap, ◌∙◌, inl, inr, Bool, true, not, ◌&&◌, List, max, All, Bool-cases, is_empty,
  if◌then◌else◌, Option, some,
}
use strobengine.Prelude.Words.{add64, i64_lt}
use strobengine.Prelude.Maps.{nat_eq}
use strobengine.Prelude.Totals.{
  sum_where, map_total, map_total-upsert, map_total-upsert_ordered, upsert-All, upsert_ordered-All,
}
use strobengine.Prelude.Floats.{Floats}
use strobengine.Text.Compare.{bytes_eq}
use strobengine.Text.Utf8.{Bytes}
use strobengine.Distributed.Master.Metrics.{MetricBatch, Metrics, new_metrics, merge_batch}
use strobengine.Distributed.Master.Metrics.Counts.{
  Counter, count, batch_count, IsMetrics, new_metrics-IsMetrics, count-new_metrics,
  merge_batch-IsMetrics, count-merge_batch,
}
use strobengine.Distributed.Master.Pipeline.{
  TelemetryPipeline, LiveSnapshot, new, absorb, ingest, run_pipeline, epoch_of,
}
use strobengine.Distributed.Master.Pipeline.Induction.{ingest_as, run_ind}

-- The batch is from a worker that passes the test.
abbrev pub from_worker : (Bytes → Bool) → MetricBatch → Bool
from_worker keep b = not (is_empty b.worker_id) && keep b.worker_id

module _ (R : Floats) where
  -- All metrics of a pipeline have its number of buckets, and their counters are words.
  pub record Inv (p : TelemetryPipeline R) : Type 0 where
    pub whole : IsMetrics R p.bucket_count p.cumulative
    pub by_epoch : All (λ q. IsMetrics R p.bucket_count q.1) p.epochs
    pub by_worker : All (λ q. IsMetrics R p.bucket_count q.1) p.workers

  pub new-Inv : (id : Bytes) (width window : ℕ) → Inv (new R id width window)
  unfolding new
  new-Inv id width window = record {
    whole = new_metrics-IsMetrics R (max width 1);
    by_epoch = tt;
    by_worker = tt;
  }

  absorb-Inv : (p : TelemetryPipeline R) (b : MetricBatch) (e : ℕ) → Inv p → Inv (absorb R p b e)
  unfolding absorb
  absorb-Inv p b e h = record {
    whole = merge_batch-IsMetrics R p.bucket_count p.cumulative b h.whole;
    by_epoch =
        upsert_ordered-All (IsMetrics R p.bucket_count) e (new_metrics R p.bucket_count)
          (λ m. merge_batch R m b p.bucket_count) i64_lt (new_metrics-IsMetrics R p.bucket_count)
          (λ m k. merge_batch-IsMetrics R p.bucket_count m b k) p.epochs h.by_epoch;
    by_worker = elim (Bool-cases (is_empty b.worker_id)) [
      | inl t ↦ rw t h.by_worker
      | inr t ↦ rw t (
          upsert-All (IsMetrics R p.bucket_count) b.worker_id (new_metrics R p.bucket_count)
            (λ m. merge_batch R m b p.bucket_count) (new_metrics-IsMetrics R p.bucket_count)
            (λ m k. merge_batch-IsMetrics R p.bucket_count m b k) p.workers h.by_worker)
    ];
  }

  pub ingest-Inv :
      (p : TelemetryPipeline R) (b : MetricBatch) (q : TelemetryPipeline R)
      (o : Option (LiveSnapshot R))
      → ingest R p b ≡ some (q, o)
      → Inv p
      → Inv q
  ingest-Inv p b q o i h =
      ingest_as R Inv p b q o i
        (λ r e v. record { whole = v.whole; by_epoch = v.by_epoch; by_worker = v.by_worker })
        (absorb-Inv p b (epoch_of b.window_start_unix_ms) h)

  -- The invariant holds after any batches.
  pub run_pipeline-Inv :
      (p : TelemetryPipeline R) (bs : List MetricBatch) (end : TelemetryPipeline R)
      → (run_pipeline R p bs).0 ≡ some end
      → Inv p
      → Inv end
  run_pipeline-Inv =
      run_ind R (λ p bs end. Inv p → Inv end) (λ p h. h)
        (λ p b q o bs end i more h. more (ingest-Inv p b q o i h))

  ingest-bucket_count :
      (p : TelemetryPipeline R) (b : MetricBatch) (q : TelemetryPipeline R)
      (o : Option (LiveSnapshot R))
      → ingest R p b ≡ some (q, o)
      → q.bucket_count ≡ p.bucket_count
  ingest-bucket_count p b q o i =
      ingest_as R (λ r. r.bucket_count ≡ p.bucket_count) p b q o i (λ r e h. h)
        (unfold absorb in refl)

  pub run_pipeline-bucket_count :
      (p : TelemetryPipeline R) (bs : List MetricBatch) (end : TelemetryPipeline R)
      → (run_pipeline R p bs).0 ≡ some end
      → end.bucket_count ≡ p.bucket_count
  run_pipeline-bucket_count =
      run_ind R (λ p bs end. end.bucket_count ≡ p.bucket_count) (λ p. refl)
        (λ p b q o bs end i more. more ∙ ingest-bucket_count p b q o i)

  grow :
      (c : Counter) (p : TelemetryPipeline R) (b : MetricBatch) (m : Metrics R)
      → IsMetrics R p.bucket_count m
      → count R c (merge_batch R m b p.bucket_count)
        ≡ add64 (count R c m) (batch_count p.bucket_count c b)
  grow c p b m h = count-merge_batch R p.bucket_count c m b h

  fresh :
      (c : Counter) (p : TelemetryPipeline R) (b : MetricBatch)
      → count R c (merge_batch R (new_metrics R p.bucket_count) b p.bucket_count)
        ≡ add64 0 (batch_count p.bucket_count c b)
  fresh c p b =
      grow c p b (new_metrics R p.bucket_count) (new_metrics-IsMetrics R p.bucket_count)
      ∙ ap (λ n. add64 n (batch_count p.bucket_count c b)) (count-new_metrics R c p.bucket_count)

  -- The entries whose key passes the test grow by what the batch reports.
  ingest-epochs :
      (c : Counter) (keep : ℕ → Bool) (p : TelemetryPipeline R) (b : MetricBatch)
      (q : TelemetryPipeline R) (o : Option (LiveSnapshot R))
      → ingest R p b ≡ some (q, o)
      → Inv p
      → map_total (count R c) keep 0 q.epochs ≡ (
          if keep (epoch_of b.window_start_unix_ms)
          then add64 (map_total (count R c) keep 0 p.epochs) (batch_count p.bucket_count c b)
          else map_total (count R c) keep 0 p.epochs)
  ingest-epochs c keep p b q o i h =
      let e = epoch_of b.window_start_unix_ms in
      let after =
        map_total-upsert_ordered (count R c) keep (IsMetrics R p.bucket_count) e
          (new_metrics R p.bucket_count) (λ m. merge_batch R m b p.bucket_count)
          (batch_count p.bucket_count c b) (fresh c p b) (grow c p b) i64_lt 0 p.epochs
          h.by_epoch in
      ingest_as R
        (λ r. map_total (count R c) keep 0 r.epochs ≡ (
          if keep e
          then add64 (map_total (count R c) keep 0 p.epochs) (batch_count p.bucket_count c b)
          else map_total (count R c) keep 0 p.epochs))
        p b q o i (λ r e k. k) (unfold absorb in after)

  ingest-workers :
      (c : Counter) (keep : Bytes → Bool) (p : TelemetryPipeline R) (b : MetricBatch)
      (q : TelemetryPipeline R) (o : Option (LiveSnapshot R))
      → ingest R p b ≡ some (q, o)
      → Inv p
      → map_total (count R c) keep 0 q.workers ≡ (
          if from_worker keep b
          then add64 (map_total (count R c) keep 0 p.workers) (batch_count p.bucket_count c b)
          else map_total (count R c) keep 0 p.workers)
  ingest-workers c keep p b q o i h =
      let after =
        map_total-upsert (count R c) keep (IsMetrics R p.bucket_count) b.worker_id
          (new_metrics R p.bucket_count) (λ m. merge_batch R m b p.bucket_count)
          (batch_count p.bucket_count c b) (fresh c p b) (grow c p b) 0 p.workers h.by_worker in
      ingest_as R
        (λ r. map_total (count R c) keep 0 r.workers ≡ (
          if from_worker keep b
          then add64 (map_total (count R c) keep 0 p.workers) (batch_count p.bucket_count c b)
          else map_total (count R c) keep 0 p.workers))
        p b q o i (λ r e k. k)
        (unfold absorb in
          elim (Bool-cases (is_empty b.worker_id)) [ inl t ↦ rw t refl | inr t ↦ rw t after ])

  -- A quantity that each batch which passes the test moves by what it reports.
  run_total :
      (c : Counter) (width : ℕ) (measure : TelemetryPipeline R → ℕ) (test : MetricBatch → Bool)
      → ((p : TelemetryPipeline R) (b : MetricBatch) (q : TelemetryPipeline R)
            (o : Option (LiveSnapshot R))
          → ingest R p b ≡ some (q, o)
          → Inv p
          → measure q
            ≡ (if test b then add64 (measure p) (batch_count p.bucket_count c b) else measure p))
      → (p : TelemetryPipeline R) (bs : List MetricBatch) (end : TelemetryPipeline R)
      → (run_pipeline R p bs).0 ≡ some end
      → Inv p
      → p.bucket_count ≡ width
      → measure end ≡ sum_where test (batch_count width c) (measure p) bs
  unfolding sum_where
  run_total c width measure test step =
      run_ind R
        (λ p bs end.
          Inv p
          → p.bucket_count ≡ width
          → measure end ≡ sum_where test (batch_count width c) (measure p) bs)
        (λ p h w. refl)
        (λ p b q o bs end i more h w.
          more (ingest-Inv p b q o i h) (ingest-bucket_count p b q o i ∙ w)
          ∙ ap (λ n. sum_where test (batch_count width c) n bs)
              (step p b q o i h
                ∙ ap (λ n. if test b then add64 (measure p) (batch_count n c b) else measure p) w))

  -- Whatever batches arrive, if none makes the pipeline panic, each counter of the cumulative metrics is the sum of what the batches
  -- report.
  pub cumulative_counts :
      (id : Bytes) (width window : ℕ) (c : Counter) (bs : List MetricBatch)
      (end : TelemetryPipeline R)
      → (run_pipeline R (new R id width window) bs).0 ≡ some end
      → count R c end.cumulative ≡ sum_where (λ b. true) (batch_count (max width 1) c) 0 bs
  cumulative_counts id width window c bs end e =
      run_total c (max width 1) (λ p. count R c p.cumulative) (λ b. true)
        (λ p b q o i h.
          ingest_as R
            (λ r.
              count R c r.cumulative
              ≡ add64 (count R c p.cumulative) (batch_count p.bucket_count c b))
            p b q o i (λ r k l. l) (unfold absorb in grow c p b p.cumulative h.whole))
        (new R id width window) bs end e (new-Inv id width window) (unfold new in refl)
      ∙ ap (λ n. sum_where (λ b. true) (batch_count (max width 1) c) n bs)
          (unfold new in count-new_metrics R c (max width 1))

  -- Whatever batches arrive, in whatever order, if none makes the pipeline panic, each counter summed over any set of epochs is the
  -- sum of what the batches of those epochs report.
  pub epoch_counts :
      (id : Bytes) (width window : ℕ) (c : Counter) (keep : ℕ → Bool) (bs : List MetricBatch)
      (end : TelemetryPipeline R)
      → (run_pipeline R (new R id width window) bs).0 ≡ some end
      → map_total (count R c) keep 0 end.epochs
        ≡ sum_where (λ b. keep (epoch_of b.window_start_unix_ms)) (batch_count (max width 1) c) 0 bs
  epoch_counts id width window c keep bs end e =
      run_total c (max width 1) (λ p. map_total (count R c) keep 0 p.epochs)
        (λ b. keep (epoch_of b.window_start_unix_ms)) (ingest-epochs c keep) (new R id width window)
        bs end e (new-Inv id width window) (unfold new in refl)
      ∙ ap
          (λ n.
            sum_where (λ b. keep (epoch_of b.window_start_unix_ms)) (batch_count (max width 1) c) n
              bs)
          (unfold new sum_where in refl)

  -- Whatever batches arrive, if none makes the pipeline panic, each counter summed over any set of workers is the sum of what the
  -- batches with their ids report; a batch without an id counts for no worker.
  pub worker_counts :
      (id : Bytes) (width window : ℕ) (c : Counter) (keep : Bytes → Bool) (bs : List MetricBatch)
      (end : TelemetryPipeline R)
      → (run_pipeline R (new R id width window) bs).0 ≡ some end
      → map_total (count R c) keep 0 end.workers
        ≡ sum_where (from_worker keep) (batch_count (max width 1) c) 0 bs
  worker_counts id width window c keep bs end e =
      run_total c (max width 1) (λ p. map_total (count R c) keep 0 p.workers) (from_worker keep)
        (ingest-workers c keep) (new R id width window) bs end e (new-Inv id width window)
        (unfold new in refl)
      ∙ ap (λ n. sum_where (from_worker keep) (batch_count (max width 1) c) n bs)
          (unfold new sum_where in refl)
