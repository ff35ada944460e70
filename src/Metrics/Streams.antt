-- ===== src/Metrics/Streams.antt =====
-- The accumulators of src/metrics/aggregate.rs for WebSocket, gRPC and HTTP/3.
use strobengine.Prelude.{ℕ, Bool, true, false, Option, ltb, ◌==◌, ◌&&◌, if◌then◌else◌}
use strobengine.Prelude.Words.{add64}
use strobengine.Prelude.Floats.{Floats}
use strobengine.Metrics.Samples.{
  WsSample, GrpcSample, Http3Sample, ws_is_significant, http3_is_significant, grpc_is_significant,
}
use strobengine.Metrics.Protocols.{WebsocketMetrics, GrpcMetrics, Http3Metrics}
use strobengine.Metrics.Accumulators.{u64_max, then_some, no_sentinel, mean_of}

module _ (R : Floats) where
  pub record WsAccumulator : Type 0 where
    pub stats : WebsocketMetrics R
    pub has : Bool
    pub bp_sum : ℕ
    pub bp_count : ℕ

  unfoldable pub new_ws : WsAccumulator
  new_ws = record {
    stats = record {
      pings_sent_total = 0;
      pings_received_total = 0;
      pongs_solicited_total = 0;
      pongs_unsolicited_total = 0;
      backpressure_max_bytes = 0;
      backpressure_mean_bytes = R.ratio 0 1;
      backpressure_threshold_breaches = 0;
    };
    has = false;
    bp_sum = 0;
    bp_count = 0;
  }

  unfoldable pub record_ws : WsAccumulator → WsSample → WsAccumulator
  record_ws a s =
      if ws_is_significant s
      then (record {
        stats = record (a.stats) {
          pings_sent_total = add64 a.stats.pings_sent_total s.pings_sent;
          pings_received_total = add64 a.stats.pings_received_total s.pings_received;
          pongs_solicited_total = add64 a.stats.pongs_solicited_total s.pongs_solicited;
          pongs_unsolicited_total = add64 a.stats.pongs_unsolicited_total s.pongs_unsolicited;
          backpressure_max_bytes =
              if ltb a.stats.backpressure_max_bytes s.backpressure_max_bytes
              then s.backpressure_max_bytes
              else a.stats.backpressure_max_bytes;
          backpressure_threshold_breaches =
              add64 a.stats.backpressure_threshold_breaches s.threshold_breaches;
        };
        has = true;
        bp_sum = add64 a.bp_sum s.backpressure_samples_sum;
        bp_count = add64 a.bp_count s.backpressure_sample_count;
      })
      else a

  unfoldable pub finish_ws : WsAccumulator → Option (WebsocketMetrics R)
  finish_ws a = then_some a.has (
      if ltb 0 a.bp_count
      then (record (a.stats) { backpressure_mean_bytes = mean_of R a.bp_sum a.bp_count })
      else a.stats)

  pub record GrpcAccumulator : Type 0 where
    pub stats : GrpcMetrics R
    pub has : Bool
    pub util_sum : R.F
    pub util_count : ℕ
    pub capacity_min : ℕ
    pub stall_sum_us : ℕ

  unfoldable pub new_grpc : GrpcAccumulator
  new_grpc = record {
    stats = record {
      active_streams_peak = 0;
      concurrency_utilization_peak = R.ratio 0 1;
      concurrency_utilization_mean = R.ratio 0 1;
      window_exhaustion_events_total = 0;
      window_stall_duration_ms_total = R.ratio 0 1;
      send_capacity_min_bytes = 0;
    };
    has = false;
    util_sum = R.ratio 0 1;
    util_count = 0;
    capacity_min = u64_max;
    stall_sum_us = 0;
  }

  unfoldable pub record_grpc : GrpcAccumulator → GrpcSample → GrpcAccumulator
  record_grpc a s =
      if grpc_is_significant R s
      then (record {
        stats = record (a.stats) {
          active_streams_peak =
              if ltb a.stats.active_streams_peak s.active_streams
              then s.active_streams
              else a.stats.active_streams_peak;
          concurrency_utilization_peak =
              if R.is_above (R.of_bits s.utilization) a.stats.concurrency_utilization_peak
              then R.of_bits s.utilization
              else a.stats.concurrency_utilization_peak;
          window_exhaustion_events_total =
              add64 a.stats.window_exhaustion_events_total s.window_exhaustion_events;
        };
        has = true;
        util_sum = R.add a.util_sum (R.of_bits s.utilization);
        util_count = add64 a.util_count 1;
        capacity_min =
            if s.has_send_capacity && ltb s.send_capacity_bytes a.capacity_min
            then s.send_capacity_bytes
            else a.capacity_min;
        stall_sum_us = add64 a.stall_sum_us s.window_stall_us;
      })
      else a

  unfoldable pub finish_grpc : GrpcAccumulator → Option (GrpcMetrics R)
  finish_grpc a = then_some a.has (record (a.stats) {
    concurrency_utilization_mean =
        if ltb 0 a.util_count
        then R.div a.util_sum (R.of_u64 a.util_count)
        else a.stats.concurrency_utilization_mean;
    window_stall_duration_ms_total = R.div (R.of_u64 a.stall_sum_us) (R.ratio 1000 1);
    send_capacity_min_bytes = no_sentinel a.capacity_min;
  })

  pub record Http3Accumulator : Type 0 where
    pub stats : Http3Metrics R
    pub has : Bool
    pub cwnd_sum : ℕ
    pub cwnd_count : ℕ
    pub cwnd_min : ℕ

  unfoldable pub new_http3 : Http3Accumulator
  new_http3 = record {
    stats = record {
      cwnd_bytes_current = 0;
      cwnd_bytes_min = 0;
      cwnd_bytes_max = 0;
      cwnd_bytes_mean = R.ratio 0 1;
      migrations_attempted_total = 0;
      migrations_successful_total = 0;
      migration_success_rate = R.ratio 0 1;
    };
    has = false;
    cwnd_sum = 0;
    cwnd_count = 0;
    cwnd_min = u64_max;
  }

  unfoldable pub record_http3 : Http3Accumulator → Http3Sample → Http3Accumulator
  record_http3 a s =
      if http3_is_significant s
      then (record {
        stats = record (a.stats) {
          cwnd_bytes_current = s.cwnd_bytes;
          cwnd_bytes_max =
              if ltb a.stats.cwnd_bytes_max s.cwnd_bytes
              then s.cwnd_bytes
              else a.stats.cwnd_bytes_max;
          migrations_attempted_total =
              add64 a.stats.migrations_attempted_total s.migrations_attempted;
          migrations_successful_total =
              add64 a.stats.migrations_successful_total s.migrations_successful;
        };
        has = true;
        cwnd_sum = add64 a.cwnd_sum s.cwnd_bytes;
        cwnd_count = add64 a.cwnd_count 1;
        cwnd_min = if ltb s.cwnd_bytes a.cwnd_min then s.cwnd_bytes else a.cwnd_min;
      })
      else a

  unfoldable pub finish_http3 : Http3Accumulator → Option (Http3Metrics R)
  finish_http3 a = then_some a.has (record (a.stats) {
    cwnd_bytes_mean =
        if ltb 0 a.cwnd_count then mean_of R a.cwnd_sum a.cwnd_count else a.stats.cwnd_bytes_mean;
    cwnd_bytes_min = no_sentinel a.cwnd_min;
    migration_success_rate =
        if a.stats.migrations_attempted_total == 0
        then R.ratio 1 1
        else mean_of R a.stats.migrations_successful_total a.stats.migrations_attempted_total;
  })
