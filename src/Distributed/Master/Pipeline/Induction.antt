-- ===== src/Distributed/Master/Pipeline/Induction.antt =====
-- Induction over the batches that the task of src/distributed/master/pipeline.rs takes without a
-- panic.
use strobengine.Prelude.{
  ℕ, ◌≡◌, refl, subst, Bool, true, false, List, [], ◌∷◌, if◌then◌else◌, Option, none, some,
}
use strobengine.Prelude.Maps.{nat_eq}
use strobengine.Prelude.Floats.{Floats}
use strobengine.Text.Compare.{bytes_eq}
use strobengine.Distributed.Master.Metrics.{MetricBatch}
use strobengine.Distributed.Master.Pipeline.{
  TelemetryPipeline, LiveSnapshot, absorb, snapshot, with_snapshot, publish, ingest, run_pipeline,
  epoch_of, is_epoch,
}

module _ (R : Floats) where
  -- What `ingest` does to the counters, where it does not panic, is what `absorb` does to them.
  pub ingest_as :
      (S : TelemetryPipeline R → Type 0) (p : TelemetryPipeline R) (b : MetricBatch)
      (q : TelemetryPipeline R) (o : Option (LiveSnapshot R))
      → ingest R p b ≡ some (q, o)
      → ((r : TelemetryPipeline R) (e : ℕ) → S r → S (record r { last_published_epoch = some e }))
      → S (absorb R p b (epoch_of b.window_start_unix_ms))
      → S q
  unfolding ingest
  ingest_as S p b q o i k h =
      let e = epoch_of b.window_start_unix_ms in
      let r = absorb R p b e in
      let after = record r { last_published_epoch = some e } in
      by_test (is_epoch r.last_published_epoch e) r after (snapshot R after e) h (k r e h) i
    where
      same :
          (r : TelemetryPipeline R) (u : Option (LiveSnapshot R))
          → ◌≡◌ {A = Option (TelemetryPipeline R × Option (LiveSnapshot R))}
              (some (r, u))
              (some (q, o))
          → r ≡ q
      same r u j = cc

      noted :
          (r : TelemetryPipeline R) (s : Option (LiveSnapshot R))
          → with_snapshot R r s ≡ some (q, o)
          → S r
          → S q
      noted r none j h = let absurd : ⊥ = cc in elim absurd [ ]
      noted r (some s) j h = subst S (same r (some s) j) h

      by_test :
          (t : Bool) (r after : TelemetryPipeline R) (s : Option (LiveSnapshot R))
          → S r
          → S after
          → ◌≡◌ {A = Option (TelemetryPipeline R × Option (LiveSnapshot R))}
              (if t then some (r, none) else with_snapshot R after s)
              (some (q, o))
          → S q
      by_test true r after s h k j = subst S (same r none j) h
      by_test false r after s h k j = noted after s j k

  -- Induction over the batches of a run that does not panic.
  pub run_ind :
      (S : TelemetryPipeline R → List MetricBatch → TelemetryPipeline R → Type 0)
      → ((p : TelemetryPipeline R) → S p [] p)
      → ((p : TelemetryPipeline R) (b : MetricBatch) (q : TelemetryPipeline R)
            (o : Option (LiveSnapshot R)) (bs : List MetricBatch) (end : TelemetryPipeline R)
          → ingest R p b ≡ some (q, o)
          → S q bs end
          → S p (b ∷ bs) end)
      → (p : TelemetryPipeline R) (bs : List MetricBatch) (end : TelemetryPipeline R)
      → (run_pipeline R p bs).0 ≡ some end
      → S p bs end
  unfolding run_pipeline
  run_ind S done more p [] end h = subst (λ e. S p [] e) (same p end h) (done p)
    where
      same : (r q : TelemetryPipeline R) → some r ≡ some q → r ≡ q
      same r q j = cc
  run_ind S done more p (b ∷ bs) end h =
      by_ingest (ingest R p b) refl h (λ q k. run_ind S done more q bs end k)
    where
      by_ingest :
          (i : Option (TelemetryPipeline R × Option (LiveSnapshot R)))
          → ingest R p b ≡ i
          → (elim i as (λ _. Option (TelemetryPipeline R) × List (LiveSnapshot R)) [
            | none ↦ (none, [])
            | some (q, published) ↦
                let (after, sent) = run_pipeline R q bs in (after, publish R published sent)
          ]).0
            ≡ some end
          → ((q : TelemetryPipeline R) → (run_pipeline R q bs).0 ≡ some end → S q bs end)
          → S p (b ∷ bs) end
      by_ingest none e k ind = let absurd : ⊥ = cc in elim absurd [ ]
      by_ingest (some (q, o)) e k ind = more p b q o bs end e (ind q k)
