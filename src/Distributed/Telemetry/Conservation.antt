-- ===== src/Distributed/Telemetry/Conservation.antt =====
-- What the batches of `WindowedCollector`, src/distributed/telemetry.rs, hold of the requests that
-- it records.
use strobengine.Prelude.{
  ℕ, ◌≡◌, ◌≢◌, refl, ap, ◌∙◌, inl, inr, true, List, [], ◌∷◌, arith, ◌==◌, All, Bool-cases,
}
use strobengine.Prelude.Words.{add64}
use strobengine.Prelude.Totals.{sum_where}
use strobengine.Text.Utf8.{Bytes}
use strobengine.Distributed.Master.Metrics.{MetricBatch}
use strobengine.Metrics.Histograms.{Histograms}
use strobengine.Metrics.Request.{RequestMetric, is_error}
use strobengine.Distributed.Telemetry.{
  WindowedCollector, new, record_metric, take_batch, Event, records, closes, collect, reset,
  window_batch,
}

module _ (I : Histograms) where
  -- The number of recorded requests, from `acc` on.
  unfoldable pub recorded : ℕ → List (Event I) → ℕ
  recorded acc [] = acc
  recorded acc (records m ∷ es) = recorded (add64 acc 1) es
  recorded acc (closes now ∷ es) = recorded acc es

  total-record_metric :
      (c : WindowedCollector I) (m : RequestMetric) → (record_metric I c m).total ≡ add64 c.total 1
  unfolding record_metric
  total-record_metric c m = ground arith

  abbrev requests_in : ℕ → List MetricBatch → ℕ
  requests_in acc bs = sum_where (λ b. true) (λ b. b.total_requests) acc bs

  conserved_from :
      (c : WindowedCollector I) (acc : ℕ) (es : List (Event I))
      → add64 (requests_in acc (collect I c es).1) (collect I c es).0.total
        ≡ recorded (add64 acc c.total) es
  unfolding collect recorded sum_where take_batch window_batch
  conserved_from c acc [] = refl
  conserved_from c acc (records m ∷ es) =
      conserved_from (record_metric I c m) acc es
      ∙ ap (λ n. recorded n es)
          (ap (λ n. add64 acc n) (total-record_metric c m) ∙ assoc acc c.total)
    where
      assoc : (a b : ℕ) → add64 a (add64 b 1) ≡ add64 (add64 a b) 1
      assoc a b = omega arith
  conserved_from c acc (closes now ∷ es) = elim (Bool-cases (c.total == 0)) [
    | inl t ↦ rw (t, take_batch) (conserved_from c acc es)
    | inr t ↦
        rw (t, take_batch)
          (conserved_from (reset I c now) (add64 acc c.total) es
            ∙ ap (λ n. recorded n es) (unfold reset in settled acc c.total))
  ]
    where
      settled : (a b : ℕ) → add64 (add64 a b) 0 ≡ add64 a b
      settled a b = omega arith

  -- The requests of all batches and those still in the open window are as many as were recorded.
  pub requests_conserved :
      (worker_id test_run_id : Bytes) (start : ℕ) (es : List (Event I))
      → let (end, bs) = collect I (new I worker_id test_run_id start) es in
        add64 (sum_where (λ b. true) (λ b. b.total_requests) 0 bs) end.total ≡ recorded 0 es
  unfolding new
  requests_conserved worker_id test_run_id start es =
      conserved_from (new I worker_id test_run_id start) 0 es

  -- The batch counts each request once, as a success or a failure, and is not empty.
  abbrev pub IsBalanced : MetricBatch → Type 0
  IsBalanced b = (b.total_requests ≡ add64 b.success_count b.failure_count) × (b.total_requests ≢ 0)

  record-balanced :
      (c : WindowedCollector I) (m : RequestMetric)
      → c.total ≡ add64 c.success c.failure
      → (record_metric I c m).total
        ≡ add64 (record_metric I c m).success (record_metric I c m).failure
  unfolding record_metric
  record-balanced c m h = elim (Bool-cases (is_error m)) [
    | inl t ↦ rw (t, record_metric) (omega (arith, h))
    | inr t ↦ rw (t, record_metric) (omega (arith, h))
  ]

  IsBalanced-from :
      (c : WindowedCollector I) (es : List (Event I))
      → c.total ≡ add64 c.success c.failure
      → All IsBalanced (collect I c es).1
  unfolding collect take_batch window_batch
  IsBalanced-from c [] h = tt
  IsBalanced-from c (records m ∷ es) h =
      IsBalanced-from (record_metric I c m) es (record-balanced c m h)
  IsBalanced-from c (closes now ∷ es) h = elim (Bool-cases (c.total == 0)) [
    | inl t ↦ rw (t, take_batch) (IsBalanced-from c es h)
    | inr t ↦
        rw (t, take_batch)
          ((h, ground arith), IsBalanced-from (reset I c now) es (unfold reset in omega arith))
  ]

  -- Each batch that a collector produces counts every request once, as a success or a failure, and
  -- no batch is empty.
  pub collect-IsBalanced :
      (worker_id test_run_id : Bytes) (start : ℕ) (es : List (Event I))
      → All IsBalanced (collect I (new I worker_id test_run_id start) es).1
  unfolding new
  collect-IsBalanced worker_id test_run_id start es =
      IsBalanced-from (new I worker_id test_run_id start) es (omega arith)
