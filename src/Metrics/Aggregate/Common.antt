-- ===== src/Metrics/Aggregate/Common.antt =====
-- The counters that every protocol shares, over the loop of `finalize_metrics` of
-- src/metrics/aggregate.rs.
use strobengine.Prelude.{
  ℕ, ◌≡◌, refl, ◌∙◌, ap, Bool, true, false, not, Option, none, some, List, [], ◌∷◌, All, arith,
  if◌then◌else◌,
}
use strobengine.Prelude.Words.{add64}
use strobengine.Prelude.Maps.{nat_eq}
use strobengine.Prelude.Totals.{sum_where, map_total, map_total-upsert}
use strobengine.Prelude.Floats.{Floats}
use strobengine.Text.Utf8.{Bytes}
use strobengine.Text.Compare.{bytes_eq}
use strobengine.Chaos.{ChaosFault, name}
use strobengine.Metrics.Histograms.{Histograms, to_u64}
use strobengine.Metrics.Samples.{is_some}
use strobengine.Metrics.Request.{RequestMetric}
use strobengine.Metrics.Accumulators.{add_some, count_some}
use strobengine.Metrics.Aggregate.{
  CommonMetrics, new_common, record_common, record_fault_type, Running, receive, receive_all,
  new_running, finish_into, finalize_metrics,
}
use strobengine.Metrics.Aggregate.Totals.{value_or_zero}

-- A counter of `CommonMetrics`; those of a map are taken over the keys that pass a test.
pub data CommonCounter : Type 0 where
  bytes created reused dns_us dns_answers faults : CommonCounter
  with_status : (ℕ → Bool) → CommonCounter
  with_fault : (Bytes → Bool) → CommonCounter

abbrev fault_passes : (Bytes → Bool) → Option ChaosFault → Bool
fault_passes keep none = false
fault_passes keep (some fault) = keep (name fault)

-- The metric adds to the counter.
unfoldable pub is_counted : CommonCounter → RequestMetric → Bool
is_counted bytes m = true
is_counted created m = not m.connection.is_socket_reused
is_counted reused m = m.connection.is_socket_reused
is_counted dns_us m = is_some m.connection.dns_resolution_us
is_counted dns_answers m = is_some m.connection.dns_resolution_us
is_counted faults m = is_some m.chaos_fault
is_counted (with_status keep) m = keep m.status_code
is_counted (with_fault keep) m = fault_passes keep m.chaos_fault

-- What it adds.
unfoldable pub amount : CommonCounter → RequestMetric → ℕ
amount bytes m = m.bytes_received
amount dns_us m = value_or_zero m.connection.dns_resolution_us
amount _ m = 1

All-unit : {A : Type 0} (xs : List A) → All {0, 0} (λ x. Unit) xs
All-unit [] = tt
All-unit (x ∷ xs) = (tt, All-unit xs)

module _ (R : Floats) (I : Histograms) where
  -- The counter's value.
  unfoldable pub count : CommonCounter → CommonMetrics R I → ℕ
  count bytes c = c.total_bytes
  count created c = c.total_sockets_created
  count reused c = c.total_connections_reused
  count dns_us c = c.dns_resolution_sum_us
  count dns_answers c = c.dns_resolution_count
  count faults c = c.chaos_injected_total
  count (with_status keep) c = map_total (λ n. n) keep 0 c.status_codes
  count (with_fault keep) c = map_total (λ n. n) keep 0 c.chaos_faults_by_type

  count-record_fault_type :
      (keep : Bytes → Bool) (m : List (Bytes × ℕ)) (fault : Option ChaosFault)
      → map_total (λ n. n) keep 0 (record_fault_type R I m fault) ≡ (
          if fault_passes keep fault
          then add64 (map_total (λ n. n) keep 0 m) 1
          else map_total (λ n. n) keep 0 m)
  unfolding record_fault_type
  count-record_fault_type keep m none = refl
  count-record_fault_type keep m (some fault) =
      map_total-upsert (λ n. n) keep (λ n. Unit) (name fault) 0 (λ n. add64 n 1) 1 refl
        (λ n h. refl) 0 m (All-unit m)

  count-record_common :
      (t : CommonCounter) (c : CommonMetrics R I) (m : RequestMetric) (latency_us : ℕ)
      → count t (record_common R I c m latency_us)
        ≡ (if is_counted t m then add64 (count t c) (amount t m) else count t c)
  unfolding count record_common is_counted amount add_some count_some
  count-record_common (with_status keep) c m l =
      map_total-upsert (λ n. n) keep (λ n. Unit) m.status_code 0 (λ n. add64 n 1) 1 refl
        (λ n h. refl) 0 c.status_codes (All-unit c.status_codes)
  count-record_common (with_fault keep) c m l =
      count-record_fault_type keep c.chaos_faults_by_type m.chaos_fault
  count-record_common bytes c m l = refl
  count-record_common _ c m l = ground arith

  count-receive_all :
      (t : CommonCounter) (r : Running R I) (ms : List (RequestMetric × ℕ))
      → count t (receive_all R I r ms).metrics
        ≡ sum_where (λ m. is_counted t m.0) (λ m. amount t m.0) (count t r.metrics) ms
  unfolding receive_all receive sum_where
  count-receive_all t r [] = refl
  count-receive_all t r (m ∷ ms) =
      count-receive_all t (receive R I r m) ms
      ∙ ap (λ n. sum_where (λ m. is_counted t m.0) (λ m. amount t m.0) n ms)
          (count-record_common t r.metrics m.0 (to_u64 m.0.latency_micros))

  count-new_common : (t : CommonCounter) → count t (new_common R I) ≡ 0
  unfolding count new_common sum_where
  count-new_common bytes = refl
  count-new_common _ = refl

  -- Each counter that the report shares between protocols is the sum over the run's metrics: the
  -- bytes, the sockets created and reused, the DNS answers and their times, the faults, and the
  -- requests by any set of status codes or of fault names.
  pub counted :
      (t : CommonCounter) (timeline_interval_ms start end : ℕ) (ms : List (RequestMetric × ℕ))
      → count t (finalize_metrics R I timeline_interval_ms start ms end).common
        ≡ sum_where (λ m. is_counted t m.0) (λ m. amount t m.0) 0 ms
  unfolding finalize_metrics finish_into new_running
  counted t interval start end ms =
      count-receive_all t (new_running R I interval start) ms
      ∙ ap (λ n. sum_where (λ m. is_counted t m.0) (λ m. amount t m.0) n ms) (count-new_common t)
