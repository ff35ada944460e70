-- ===== src/Distributed/Master/Run/Ownership.antt =====
-- Whose data the run of src/distributed/master/run.rs reports.
use strobengine.Prelude.{
  ℕ, ◌≡◌, refl, ap, ◌∙◌, inl, inr, true, Option, none, some, List, [], ◌∷◌, Bool-cases, is_empty,
  if◌then◌else◌,
}
use strobengine.Prelude.Totals.{sum_where}
use strobengine.Prelude.Floats.{Floats}
use strobengine.Text.Utf8.{Bytes}
use strobengine.Text.Compare.{same}
use strobengine.Distributed.Master.Metrics.{MetricBatch}
use strobengine.Distributed.Master.Metrics.Counts.{requests, count, batch_count}
use strobengine.Distributed.Master.Pipeline.{
  TelemetryPipeline, LiveSnapshot, publish, new, absorb, ingest, run_pipeline,
}
use strobengine.Distributed.Master.Pipeline.Window.{IsWindow, IsDated, new-runs}
use strobengine.Distributed.Master.Pipeline.Panics.{HasTooEarly, run_pipeline-HasTooEarly}
use strobengine.Distributed.Master.Pipeline.Induction.{ingest_as, run_ind}
use strobengine.Distributed.Master.Pipeline.Counts.{cumulative_counts}
use strobengine.Distributed.Master.Pipeline.Report.{GlobalReport, finalize}
use strobengine.Distributed.Master.Run.{
  ActiveRun, Slot, Event, batch, ack, closed, ingest_alive, ingest_batch, record_ack,
  mark_telemetry_done, install, start_command, finish, done, failed, pipeline_stopped, handle,
  handle_all, insert_member,
}

module _ (R : Floats) where
  -- The batches among the events that carry the run's id.
  unfoldable pub batches_of : Bytes → List (Event R) → List MetricBatch
  batches_of id [] = []
  batches_of id (batch b ∷ es) =
      let rest = batches_of id es in if same b.test_run_id id then b ∷ rest else rest
  batches_of id (ack command_id worker_id ∷ es) = batches_of id es
  batches_of id (closed worker_id ∷ es) = batches_of id es

  -- What is left of a pipeline by some batches.
  unfoldable pub fed_alive :
      Option (TelemetryPipeline R) → List MetricBatch → Option (TelemetryPipeline R)
  fed_alive o [] = o
  fed_alive o (b ∷ bs) = fed_alive (ingest_alive R o b) bs

  fed_alive-none : (bs : List MetricBatch) → fed_alive none bs ≡ none
  unfolding fed_alive
  fed_alive-none [] = refl
  fed_alive-none (b ∷ bs) = fed_alive-none bs

  fed_alive-run_pipeline :
      (p : TelemetryPipeline R) (bs : List MetricBatch)
      → fed_alive (some p) bs ≡ (run_pipeline R p bs).0
  unfolding fed_alive run_pipeline
  fed_alive-run_pipeline p [] = refl
  fed_alive-run_pipeline p (b ∷ bs) = by_ingest (ingest R p b) (λ q. fed_alive-run_pipeline q bs)
    where
      by_ingest :
          (i : Option (TelemetryPipeline R × Option (LiveSnapshot R)))
          → ((q : TelemetryPipeline R) → fed_alive (some q) bs ≡ (run_pipeline R q bs).0)
          → fed_alive (elim i [ none ↦ none | some (q, published) ↦ some q ]) bs
            ≡ (elim i as (λ _. Option (TelemetryPipeline R) × List (LiveSnapshot R)) [
              | none ↦ (none, [])
              | some (q, published) ↦
                  let (after, sent) = run_pipeline R q bs in (after, publish R published sent)
            ]).0
      by_ingest none k = fed_alive-none bs
      by_ingest (some (q, o)) k = k q

  -- The run that the slot holds after some events.
  record Holds (run : ActiveRun R) (bs : List MetricBatch) (s : Slot R) : Type 0 where
    after : ActiveRun R
    there : s ≡ some after
    same_id : after.run_id ≡ run.run_id
    fed : after.pipeline ≡ fed_alive run.pipeline bs

  handle_all-Holds :
      (run : ActiveRun R) (es : List (Event R))
      → Holds run (batches_of run.run_id es) (handle_all R (some run) es)
  unfolding handle_all handle ingest_batch record_ack mark_telemetry_done batches_of fed_alive
  handle_all-Holds run [] = record { after = run; there = refl; same_id = refl; fed = refl }
  handle_all-Holds run (batch b ∷ es) = elim (Bool-cases (same b.test_run_id run.run_id)) [
    | inl t ↦
        let h = handle_all-Holds (record run { pipeline = ingest_alive R run.pipeline b }) es in
        rw (t, ingest_batch, batches_of)
          (record { after = h.after; there = h.there; same_id = h.same_id; fed = h.fed })
    | inr t ↦ rw (t, ingest_batch, batches_of) (handle_all-Holds run es)
  ]
  handle_all-Holds run (ack command_id worker_id ∷ es) =
      elim (Bool-cases (same command_id run.start_command_id)) [
        | inl t ↦
            let h =
              handle_all-Holds (record run { acked = insert_member worker_id run.acked }) es in
            rw (t, record_ack)
              (record { after = h.after; there = h.there; same_id = h.same_id; fed = h.fed })
        | inr t ↦ rw (t, record_ack) (handle_all-Holds run es)
      ]
  handle_all-Holds run (closed worker_id ∷ es) = elim (Bool-cases (is_empty worker_id)) [
    | inl t ↦ rw (t, mark_telemetry_done) (handle_all-Holds run es)
    | inr t ↦
        let h =
          handle_all-Holds
            (record run { telemetry_done = insert_member worker_id run.telemetry_done }) es in
        rw (t, mark_telemetry_done)
          (record { after = h.after; there = h.there; same_id = h.same_id; fed = h.fed })
  ]

  run_pipeline-run_id :
      (p : TelemetryPipeline R) (bs : List MetricBatch) (end : TelemetryPipeline R)
      → (run_pipeline R p bs).0 ≡ some end
      → end.run_id ≡ p.run_id
  run_pipeline-run_id =
      run_ind R (λ p bs end. end.run_id ≡ p.run_id) (λ p. refl)
        (λ p b q o bs end i more.
          more
          ∙ ingest_as R (λ r. r.run_id ≡ p.run_id) p b q o i (λ r e h. h) (unfold absorb in refl))

  -- The slot after an installation in an empty one and some events.
  installed-Holds :
      (id worker : Bytes) (workers : List Bytes) (width window : ℕ) (es : List (Event R))
      → (run : ActiveRun R) × (handle_all R (install R none id (worker ∷ workers) width window).0 es
          ≡ some run)
        × (run.pipeline ≡ (run_pipeline R (new R id width window) (batches_of id es)).0)
  unfolding install
  installed-Holds id worker workers width window es =
      let h =
        handle_all-Holds
          (record {
            run_id = id;
            start_command_id = start_command id;
            allocated = worker ∷ workers;
            pipeline = some (new R id width window);
            acked = [];
            telemetry_done = [];
          })
          es in
      (h.after, h.there, h.fed ∙ fed_alive-run_pipeline (new R id width window) (batches_of id es))

  -- A run that is installed in an empty slot, with a window of 1 to 2 ^ 53 seconds, and finished
  -- after any batches, acknowledgements and closed streams, those of the batches that have its id
  -- being from 1970 on, gives a report under its own id, whose total is the sum of these batches,
  -- and leaves the slot empty.
  pub finish-install :
      (id worker : Bytes) (workers : List Bytes) (width window : ℕ) (class_name : ℕ → Option Bytes)
      (es : List (Event R))
      → IsWindow window
      → IsDated (batches_of id es)
      → (report : GlobalReport R) × (finish R class_name
            (handle_all R (install R none id (worker ∷ workers) width window).0 es)
          ≡ (none, done report))
        × (report.test_run_id ≡ id)
        × (report.total_requests
            ≡ sum_where (λ b. true) (λ b. b.total_requests) 0 (batches_of id es))
  unfolding finish
  finish-install id worker workers width window class_name es w d =
      let bs = batches_of id es in
      let (p, e, size) = new-runs R id width window bs w d in
      let (run, there, fed) = installed-Holds id worker workers width window es in
      (
        finalize R class_name p,
        ap (λ s. finish R class_name s) there ∙ (rw (fed ∙ e, finish) refl),
        (unfold finalize in
            run_pipeline-run_id (new R id width window) bs p e ∙ (unfold new in refl)),
        (unfold finalize count batch_count in cumulative_counts R id width window requests bs p e),
      )

  -- The same run fails, and leaves the slot empty, if one of the batches with its id, at whatever
  -- place, has a time that is at least a second, and fewer seconds than the window has less one, above
  -- the least i64: the pipeline has panicked.
  pub finish-stopped :
      (id worker : Bytes) (workers : List Bytes) (width window : ℕ) (class_name : ℕ → Option Bytes)
      (es : List (Event R))
      → IsWindow window
      → HasTooEarly window (batches_of id es)
      → finish R class_name (handle_all R (install R none id (worker ∷ workers) width window).0 es)
        ≡ (none, failed pipeline_stopped)
  unfolding finish
  finish-stopped id worker workers width window class_name es w a =
      let e = run_pipeline-HasTooEarly R id width window (batches_of id es) w a in
      let (run, there, fed) = installed-Holds id worker workers width window es in
      ap (λ s. finish R class_name s) there ∙ (rw (fed ∙ e, finish) refl)
