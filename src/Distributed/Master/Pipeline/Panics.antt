-- ===== src/Distributed/Master/Pipeline/Panics.antt =====
-- Which batches make the pipeline of src/distributed/master/pipeline.rs panic.
use strobengine.Prelude.{
  ℕ, ◌+◌, ◌-◌, ◌*◌, ◌^◌, ◌≤◌, ◌<◌, ◌≡◌, ◌⊎◌, refl, subst, ◌∙◌, inl, inr, Bool, true, false, List,
  [], ◌∷◌, Option, none, some, arith, Bool-cases, if◌then◌else◌,
}
use strobengine.Prelude.Words.{sub64, mul64, i64_lt}
use strobengine.Prelude.Floats.{Floats}
use strobengine.Text.Utf8.{Bytes}
use strobengine.Distributed.Master.Metrics.{MetricBatch, new_metrics}
use strobengine.Distributed.Master.Pipeline.{
  TelemetryPipeline, LiveSnapshot, new, absorb, snapshot, snapshot_of, ingest, run_pipeline,
  epoch_of, epoch_ms, is_epoch, window_metrics, window_start, merge_range, merge_entries,
  at_least_one,
}
use strobengine.Distributed.Master.Pipeline.Window.{IsWindow}

-- The batch's time is at least a second after the least one of an i64, and its window would start
-- before that.
abbrev pub IsTooEarly : ℕ → MetricBatch → Type 0
IsTooEarly window b =
    (2 ^ 63 + 1000 ≤ b.window_start_unix_ms)
    × (b.window_start_unix_ms < 2 ^ 63 + (window - 1) * 1000)

abbrev pub HasTooEarly : ℕ → List MetricBatch → Type 0
HasTooEarly window [] = ⊥
HasTooEarly window (b ∷ bs) = IsTooEarly window b ⊎ HasTooEarly window bs

-- The window that ends at the epoch starts after it.
abbrev wraps : ℕ → ℕ → Bool
wraps window epoch = i64_lt epoch (sub64 epoch (mul64 (sub64 window 1) epoch_ms))

at_time :
    (window t : ℕ)
    → 1 ≤ window
    → window ≤ 2 ^ 53
    → 2 ^ 63 + 1000 ≤ t
    → t < 2 ^ 63 + (window - 1) * 1000
    → wraps window (epoch_of t) ≡ true
unfolding epoch_of
at_time window t v w h k = ground arith

wraps-IsTooEarly :
    (window : ℕ) (b : MetricBatch)
    → IsWindow window
    → IsTooEarly window b
    → wraps window (epoch_of b.window_start_unix_ms) ≡ true
wraps-IsTooEarly window b w h = at_time window b.window_start_unix_ms w.0 w.1 h.0 h.1

is_epoch-some : (o : Option ℕ) (e : ℕ) → is_epoch o e ≡ true → o ≡ some e
unfolding is_epoch
is_epoch-some none e h = cc
is_epoch-some (some d) e h = ground arith

same_value : (m n : ℕ) → some m ≡ some n → m ≡ n
same_value m n k = cc

module _ (R : Floats) where
  -- The pipeline has published no epoch whose window wraps round.
  record Sane (window : ℕ) (p : TelemetryPipeline R) : Type 0 where
    size : p.window_epochs ≡ window
    published : (e : ℕ) → p.last_published_epoch ≡ some e → wraps window e ≡ false

  snapshot-wraps :
      (p : TelemetryPipeline R) (e : ℕ)
      → snapshot R p e ≡ (
          if wraps p.window_epochs e
          then none
          else some (
              snapshot_of R p e (
                merge_entries R
                  (sub64 e (mul64 (sub64 p.window_epochs 1) epoch_ms))
                  e
                  (new_metrics R p.bucket_count)
                  p.epochs)))
  unfolding snapshot window_metrics window_start merge_range
  snapshot-wraps p e = elim (Bool-cases (wraps p.window_epochs e)) [
    | inl t ↦ rw (t, snapshot, window_metrics, merge_range) refl
    | inr t ↦ rw (t, snapshot, window_metrics, merge_range) refl
  ]

  snapshot-some :
      (p : TelemetryPipeline R) (e : ℕ)
      → wraps p.window_epochs e ≡ false
      → (s : LiveSnapshot R) × (snapshot R p e ≡ some s)
  snapshot-some p e u = (
    snapshot_of R p e (
        merge_entries R (sub64 e (mul64 (sub64 p.window_epochs 1) epoch_ms)) e
          (new_metrics R p.bucket_count) p.epochs),
    snapshot-wraps p e ∙ (rw u refl),
  )

  abbrev epoch : MetricBatch → ℕ
  epoch b = epoch_of b.window_start_unix_ms

  -- `ingest` by its three outcomes.
  data Taken (p : TelemetryPipeline R) (b : MetricBatch) : Type 0 where
    quiet :
        is_epoch p.last_published_epoch (epoch b) ≡ true
        → ingest R p b ≡ some (absorb R p b (epoch b), none)
        → Taken p b
    loud :
        (s : LiveSnapshot R)
        → wraps p.window_epochs (epoch b) ≡ false
        → ingest R p b
          ≡ some (record (absorb R p b (epoch b)) { last_published_epoch = some (epoch b) }, some s)
        → Taken p b
    gone : ingest R p b ≡ none → Taken p b

  taken : (p : TelemetryPipeline R) (b : MetricBatch) → Taken p b
  unfolding ingest absorb
  taken p b =
      let after : TelemetryPipeline R = record (absorb R p b (epoch b)) {
        last_published_epoch = some (epoch b);
      } in
      elim (Bool-cases (is_epoch p.last_published_epoch (epoch b))) [
        | inl t ↦ quiet t (rw (t, ingest) refl)
        | inr t ↦ elim (Bool-cases (wraps p.window_epochs (epoch b))) [
          | inl u ↦ gone (simp (t, snapshot-wraps after (epoch b), u, ingest) refl)
          | inr u ↦
              let (s, got) = snapshot-some after (epoch b) u in
              loud s u (simp (t, got, ingest) refl)
        ]
      ]

  taken-Sane :
      (window : ℕ) (p : TelemetryPipeline R) (b : MetricBatch)
      → Sane window p
      → (ingest R p b ≡ none)
        ⊎ ((q : TelemetryPipeline R) × (o : Option (LiveSnapshot R)) × (ingest R p b ≡ some (q, o))
            × Sane window q
            × (wraps window (epoch b) ≡ false))
  unfolding absorb
  taken-Sane window p b h = by_outcome (taken p b)
    where
      by_outcome :
          Taken p b
          → (ingest R p b ≡ none)
            ⊎ ((q : TelemetryPipeline R) × (o : Option (LiveSnapshot R)) × (ingest R p b
                  ≡ some (q, o))
                × Sane window q
                × (wraps window (epoch b) ≡ false))
      by_outcome (gone e) = inl e
      by_outcome (quiet t e) = inr (
        absorb R p b (epoch b),
        none,
        e,
        record { size = h.size; published = h.published },
        h.published (epoch b) (is_epoch-some p.last_published_epoch (epoch b) t),
      )
      by_outcome (loud s u e) =
          let fits : wraps window (epoch b) ≡ false =
            subst (λ n. wraps n (epoch b) ≡ false) h.size u in
          inr (
            record (absorb R p b (epoch b)) { last_published_epoch = some (epoch b) },
            some s,
            e,
            record {
              size = h.size;
              published =
                  λ d k. subst (λ n. wraps window n ≡ false) (same_value (epoch b) d k) fits;
            },
            fits,
          )

  run-HasTooEarly :
      (window : ℕ) (p : TelemetryPipeline R) (bs : List MetricBatch)
      → IsWindow window
      → Sane window p
      → HasTooEarly window bs
      → (run_pipeline R p bs).0 ≡ none
  unfolding run_pipeline
  run-HasTooEarly window p [] w h a = elim a [ ]
  run-HasTooEarly window p (b ∷ bs) w h a = elim (taken-Sane window p b h) [
    | inl e ↦ rw (e, run_pipeline) refl
    | inr (q, o, e, sane, fits) ↦
        rw (e, run_pipeline)
          (run-HasTooEarly window q bs w sane (elim a [
            | inl early ↦
                let wrapped = wraps-IsTooEarly window b w early in
                let absurd : ⊥ = cc in elim absurd [ ]
            | inr later ↦ later
          ]))
  ]

  -- With a window of 1 to 2 ^ 53 seconds, a batch that is too early makes the pipeline panic, whatever
  -- batches come before and after.
  pub run_pipeline-HasTooEarly :
      (id : Bytes) (width window : ℕ) (bs : List MetricBatch)
      → IsWindow window
      → HasTooEarly window bs
      → (run_pipeline R (new R id width window) bs).0 ≡ none
  unfolding new at_least_one
  run_pipeline-HasTooEarly id width window bs w a =
      run-HasTooEarly window (new R id width window) bs w
        (record { size = ground (arith, w.0, w.1); published = λ e k. cc }) a
