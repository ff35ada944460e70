-- ===== src/Metrics/Aggregate/Timelines.antt =====
-- When `finalize_metrics` of src/metrics/aggregate.rs reports a timeline.
use strobengine.Prelude.{
  ℕ, suc, ◌<◌, ◌+◌, ◌-◌, ◌≡◌, refl, sym, ◌∙◌, ap, inl, inr, Bool, true, false, not, ◌&&◌, ◌||◌,
  List, [], ◌∷◌, ◌++◌, length, is_empty, arith, ltb, Bool-cases,
}
use strobengine.Prelude.Words.{u64_mod}
use strobengine.Prelude.Floats.{Floats}
use strobengine.Metrics.Histograms.{Histograms, to_u64}
use strobengine.Metrics.Samples.{is_some}
use strobengine.Metrics.Request.{RequestMetric, is_error}
use strobengine.Metrics.Accumulators.{then_some}
use strobengine.Metrics.Aggregate.{
  Running, receive, receive_all, new_running, finish_into, finalize_metrics,
}
use strobengine.Metrics.Timeline.{
  TimelineAccumulator, record_latency, maybe_emit, new_timeline, finish_timeline,
}

is_empty-append_one : {A : Type 0} (xs : List A) (x : A) → is_empty (xs ++ x ∷ []) ≡ false
is_empty-append_one [] x = refl
is_empty-append_one (y ∷ xs) x = refl

not_empty : {A : Type 0} (xs : List A) (x : A) (n m : ℕ) → is_empty (xs ++ x ∷ []) ≡ true → n ≡ m
not_empty [] x n m e = ground arith
not_empty (y ∷ xs) x n m e = ground arith

module _ (R : Floats) (I : Histograms) where
  -- Recording, then emitting, as the loop does for each metric.
  step : TimelineAccumulator R I → ℕ → Bool → ℕ → TimelineAccumulator R I
  step t us failed now = maybe_emit R I (record_latency R I t us failed) now

  -- While the timeline has no sample, its open interval holds all the `n` requests so far.
  abbrev IsTracked : ℕ → TimelineAccumulator R I → Type 0
  IsTracked n t = (t.enabled ≡ true) × (is_empty t.samples ≡ true → t.requests ≡ n)

  emitted :
      (t : TimelineAccumulator R I) (n now : ℕ)
      → suc n < u64_mod
      → IsTracked (suc n) t
      → IsTracked (suc n) (maybe_emit R I t now)
  unfolding maybe_emit
  emitted t n now b h =
      elim (Bool-cases (not t.enabled || ltb (now - t.last_sample_at) t.sample_interval)) [
        | inl early ↦ rw (early, maybe_emit) h
        | inr due ↦ elim (Bool-cases (ltb 0 t.requests)) [
          | inl some_requests ↦
              rw (due, some_requests, maybe_emit) (h.0, λ e. not_empty t.samples _ 0 (suc n) e)
          | inr no_requests ↦ rw (due, no_requests, maybe_emit) (h.0, λ e. ground (arith, h.1 e))
        ]
      ]

  recorded :
      (t : TimelineAccumulator R I) (n us : ℕ) (failed : Bool)
      → suc n < u64_mod
      → IsTracked n t
      → IsTracked (suc n) (record_latency R I t us failed)
  unfolding record_latency
  recorded t n us failed b h = rw (h.0, record_latency) (refl, λ e. omega (arith, h.1 e))

  tracked :
      (r : Running R I) (n : ℕ) (ms : List (RequestMetric × ℕ))
      → n + length ms < u64_mod
      → IsTracked n r.line
      → IsTracked (n + length ms) (receive_all R I r ms).line
  unfolding receive_all receive
  tracked r n [] b h = (h.0, λ e. omega (arith, h.1 e))
  tracked r n (m ∷ ms) b h =
      let rest = tracked (receive R I r m) (suc n) ms (omega arith) (
        emitted _ n m.1 (omega arith)
          (recorded r.line n (to_u64 m.0.latency_micros) (is_error m.0) (omega arith) h)) in
      (rest.0, λ e. omega (arith, rest.1 e))

  finished :
      (t : TimelineAccumulator R I) (n now : ℕ)
      → IsTracked n t
      → 0 < n
      → is_some (finish_timeline R I t now) ≡ true
  unfolding finish_timeline then_some
  finished t n now h p = elim (Bool-cases (ltb 0 t.requests)) [
    | inl some_requests ↦
        rw (h.0, some_requests, is_empty-append_one t.samples, finish_timeline) refl
    | inr no_requests ↦ elim (Bool-cases (is_empty t.samples)) [
      | inl e ↦ ground (arith, h.1 e)
      | inr e ↦ rw (h.0, no_requests, e, finish_timeline) refl
    ]
  ]

  line-disabled :
      (t : TimelineAccumulator R I) (us now : ℕ) (failed : Bool)
      → t.enabled ≡ false
      → maybe_emit R I (record_latency R I t us failed) now ≡ t
  unfolding maybe_emit record_latency
  line-disabled t us now failed h = simp (h, record_latency, maybe_emit)

  disabled_all :
      (r : Running R I) (ms : List (RequestMetric × ℕ))
      → r.line.enabled ≡ false
      → (receive_all R I r ms).line.enabled ≡ false
  unfolding receive_all receive
  disabled_all r [] h = h
  disabled_all r (m ∷ ms) h = disabled_all (receive R I r m) ms (
      ap (λ t. t.enabled) (line-disabled r.line (to_u64 m.0.latency_micros) m.1 (is_error m.0) h)
      ∙ h)

  unfinished :
      (t : TimelineAccumulator R I) (now : ℕ)
      → t.enabled ≡ false
      → is_some (finish_timeline R I t now) ≡ false
  unfolding finish_timeline then_some
  unfinished t now h = rw (h, finish_timeline) refl

  finished_all :
      (interval start end : ℕ) (ms : List (RequestMetric × ℕ))
      → length ms < u64_mod
      → ltb 0 interval ≡ true
      → is_some (finish_timeline R I (receive_all R I (new_running R I interval start) ms).line end)
        ≡ not (is_empty ms)
  unfolding new_running new_timeline receive_all
  finished_all interval start end [] b on = unfold finish_timeline then_some in ground arith
  finished_all interval start end (m ∷ ms) b on =
      finished _ (0 + length (m ∷ ms)) end
        (tracked (new_running R I interval start) 0 (m ∷ ms) (omega arith) (on, λ e. refl))
        (omega arith)

  -- A run of fewer than 2 ^ 64 requests has a timeline in its report exactly when the interval is
  -- positive and there was a request.
  pub timeline_iff :
      (timeline_interval_ms start end : ℕ) (ms : List (RequestMetric × ℕ))
      → length ms < u64_mod
      → is_some (finalize_metrics R I timeline_interval_ms start ms end).timeline
        ≡ ltb 0 timeline_interval_ms && not (is_empty ms)
  unfolding finalize_metrics finish_into new_running new_timeline
  timeline_iff interval start end ms b = elim (Bool-cases (ltb 0 interval)) [
    | inr off ↦
        unfinished _ end (disabled_all (new_running R I interval start) ms off)
        ∙ ap (λ c. c && not (is_empty ms)) (sym off)
    | inl on ↦ finished_all interval start end ms b on ∙ ap (λ c. c && not (is_empty ms)) (sym on)
  ]
