-- ===== src/Metrics/Tests.antt =====
-- Runs of the aggregation of src/metrics/aggregate.rs, with numbers in place of its floats and
-- lists of values in place of its histograms.
use strobengine.Prelude.{ℕ, ◌≡◌, true, none, some, List, [], ◌∷◌, ◌==◌, arith}
use strobengine.Prelude.Totals.{sum_where}
use strobengine.Chaos.{latency_spike}
use strobengine.Metrics.Samples.{is_some, ws, http3_is_significant}
use strobengine.Metrics.Request.{
  RequestMetric, builder, status, bytes, quic, with_quic, http3, with_http3, with_sample,
  dns_resolution_us,
}
use strobengine.Metrics.Aggregate.{receive_all, new_running, finalize_metrics}
use strobengine.Metrics.Aggregate.Totals.{retransmissions, of_quic}
use strobengine.Metrics.Aggregate.Sums.{for_quic, tally, tallied, carried}
use strobengine.Metrics.Aggregate.Timelines.{timeline_iff}
use strobengine.Metrics.Aggregate.Presence.{
  Protocol, any_marks, marks, is_reported, reported_iff_marked,
}
use strobengine.Metrics.Aggregate.Common.{with_status, count, counted, is_counted, amount}
use strobengine.Distributed.Master.Pipeline.Tests.{whole_floats}
use strobengine.Distributed.Telemetry.Tests.{value_lists}

-- A WebSocket metric with two pings, an HTTP/3 metric with three retransmissions, and an error.
abbrev metrics : List (RequestMetric × ℕ)
metrics =
    (
      with_sample ws
          (some (record {
            pings_sent = 0;
            pings_received = 2;
            pongs_solicited = 0;
            pongs_unsolicited = 0;
            backpressure_max_bytes = 0;
            backpressure_samples_sum = 0;
            backpressure_sample_count = 0;
            threshold_breaches = 0;
          }))
          (bytes 10 (status 200 (builder 1500 none))),
      1000,
    )
    ∷ (
      quic (some 20) true (some 3) (
          http3
            (some (record { cwnd_bytes = 7; migrations_attempted = 0; migrations_successful = 0 }))
            (status 200 (dns_resolution_us (some 5) (builder 900 none)))),
      3000000,
    )
    ∷ (builder 100 (some (latency_spike 150)), 4000000)
    ∷ []

tallied_example :
    tally whole_floats value_lists
      (for_quic retransmissions)
      (receive_all whole_floats value_lists
        (new_running whole_floats value_lists 1 0)
        metrics).protocols
    ≡ 3
unfolding sum_where of_quic with_sample carried quic with_quic http3 with_http3 status
    dns_resolution_us builder bytes
tallied_example = tallied whole_floats value_lists (for_quic retransmissions) 1 0 metrics

reported_iff_marked_example :
    is_reported whole_floats value_lists Protocol.http3
      (finalize_metrics whole_floats value_lists 1 0 metrics 5000000)
    ≡ true
unfolding any_marks marks http3_is_significant with_sample quic with_quic http3 with_http3 status
    dns_resolution_us builder bytes
reported_iff_marked_example =
    reported_iff_marked whole_floats value_lists Protocol.http3 1 0 5000000 metrics

counted_example :
    count whole_floats value_lists
      (with_status (λ code. code == 200))
      (finalize_metrics whole_floats value_lists 1 0 metrics 5000000).common
    ≡ 2
unfolding sum_where is_counted amount with_sample quic with_quic http3 with_http3 status
    dns_resolution_us builder bytes
counted_example =
    counted whole_floats value_lists (with_status (λ code. code == 200)) 1 0 5000000 metrics

timeline_iff_example :
    is_some (finalize_metrics whole_floats value_lists 1 0 metrics 5000000).timeline ≡ true
timeline_iff_example = timeline_iff whole_floats value_lists 1 0 5000000 metrics (omega arith)
