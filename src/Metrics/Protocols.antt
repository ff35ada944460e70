-- ===== src/Metrics/Protocols.antt =====
-- The aggregated metrics of each protocol, src/metrics/protocols.rs, and the percentiles of
-- src/metrics/helpers.rs. Four fields that one histogram fills (`ttfm_mean_ms`, `ttfm_p50_ms` and so
-- on) are one record of percentiles. The labels of a run that are filled in later (`destination`,
-- `driver` and so on) are left out.
use strobengine.Prelude.{ℕ, Option, ◌==◌, if◌then◌else◌}
use strobengine.Prelude.Floats.{Floats}
use strobengine.Text.Utf8.{Bytes}
use strobengine.Metrics.Histograms.{Histograms}

pub record GraphqlMetrics : Type 0 where
  pub operations_total : ℕ
  pub error_responses_total : ℕ
  pub errors_total : ℕ
  pub operation_type : Bytes

pub record SoapMetrics : Type 0 where
  pub operations_total : ℕ
  pub fault_responses_total : ℕ
  pub soap_version : Bytes

module _ (R : Floats) where
  pub record QuicMetrics : Type 0 where
    pub zero_rtt_accepted_count : ℕ
    pub retransmissions : ℕ
    pub avg_handshake_ms : Option R.F

  pub record SseMetrics : Type 0 where
    pub total_events_received : ℕ
    pub avg_ttfb_ms : Option R.F

  pub record WebsocketMetrics : Type 0 where
    pub pings_sent_total : ℕ
    pub pings_received_total : ℕ
    pub pongs_solicited_total : ℕ
    pub pongs_unsolicited_total : ℕ
    pub backpressure_max_bytes : ℕ
    pub backpressure_mean_bytes : R.F
    pub backpressure_threshold_breaches : ℕ

  pub record GrpcMetrics : Type 0 where
    pub active_streams_peak : ℕ
    pub concurrency_utilization_peak : R.F
    pub concurrency_utilization_mean : R.F
    pub window_exhaustion_events_total : ℕ
    pub window_stall_duration_ms_total : R.F
    pub send_capacity_min_bytes : ℕ

  pub record Http3Metrics : Type 0 where
    pub cwnd_bytes_current : ℕ
    pub cwnd_bytes_min : ℕ
    pub cwnd_bytes_max : ℕ
    pub cwnd_bytes_mean : R.F
    pub migrations_attempted_total : ℕ
    pub migrations_successful_total : ℕ
    pub migration_success_rate : R.F

  -- The four values that the metrics keep of a histogram, in milliseconds.
  pub record Percentiles : Type 0 where
    pub mean_ms : R.F
    pub p50_ms : R.F
    pub p90_ms : R.F
    pub p99_ms : R.F

  abbrev pub no_percentiles : Percentiles
  no_percentiles = record {
    mean_ms = R.ratio 0 1;
    p50_ms = R.ratio 0 1;
    p90_ms = R.ratio 0 1;
    p99_ms = R.ratio 0 1;
  }

  pub record GraphqlWsMetrics : Type 0 where
    pub operations_total : ℕ
    pub messages_total : ℕ
    pub errors_total : ℕ
    pub ttfm : Percentiles
    pub interval : Percentiles

  pub record StompMetrics : Type 0 where
    pub messages_sent_total : ℕ
    pub messages_received_total : ℕ
    pub bytes_sent_total : ℕ
    pub errors_total : ℕ
    pub reconnects_total : ℕ
    pub send_latency : Percentiles
    pub receive_interval : Percentiles
    pub ttfm : Percentiles

  pub record DatabaseMetrics : Type 0 where
    pub queries_total : ℕ
    pub rows_total : ℕ
    pub errors_total : ℕ
    pub pool_size : ℕ
    pub pool_acquire : Percentiles
    pub query : Percentiles

  module _ (I : Histograms) where
    -- `MICROS_PER_MILLI`
    abbrev micros_per_milli : R.F
    micros_per_milli = R.ratio 1000 1

    unfoldable pub from_histogram : I.H → Percentiles
    from_histogram hist = if I.len hist == 0 then no_percentiles else (record {
      mean_ms = R.div (R.of_bits (I.mean hist)) micros_per_milli;
      p50_ms = R.div (R.of_u64 (I.value_at_quantile hist 50 100)) micros_per_milli;
      p90_ms = R.div (R.of_u64 (I.value_at_quantile hist 90 100)) micros_per_milli;
      p99_ms = R.div (R.of_u64 (I.value_at_quantile hist 99 100)) micros_per_milli;
    })

    -- `fold_percentiles`: what a group of four fields becomes.
    unfoldable pub fold_percentiles : I.H → Percentiles → Percentiles
    fold_percentiles hist old = if I.len hist == 0 then old else from_histogram hist

    unfoldable pub graphql_ws_stats_from_histograms :
        GraphqlWsMetrics → I.H → I.H → GraphqlWsMetrics
    graphql_ws_stats_from_histograms stats ttfm interval = record stats {
      ttfm = fold_percentiles ttfm stats.ttfm;
      interval = fold_percentiles interval stats.interval;
    }

    unfoldable pub stomp_stats_from_histograms : StompMetrics → I.H → I.H → I.H → StompMetrics
    stomp_stats_from_histograms stats send interval ttfm = record stats {
      send_latency = fold_percentiles send stats.send_latency;
      receive_interval = fold_percentiles interval stats.receive_interval;
      ttfm = fold_percentiles ttfm stats.ttfm;
    }

    unfoldable pub db_stats_from_histograms : DatabaseMetrics → I.H → I.H → DatabaseMetrics
    db_stats_from_histograms stats acquire query = record stats {
      pool_acquire = fold_percentiles acquire stats.pool_acquire;
      query = fold_percentiles query stats.query;
    }
