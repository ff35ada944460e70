-- ===== src/Metrics/Aggregate.antt =====
-- `finalize_metrics` of src/metrics/aggregate.rs: what a run's metrics add up to. The channel is the
-- list of its metrics, each with the time at which it is taken; a clock is read once for each
-- metric and once at the end. Times are
-- nanoseconds on the monotonic clock.
pub mod Totals
pub mod TimedTotals
pub mod Sums
pub mod Timelines
pub mod Common
pub mod Presence
use strobengine.Prelude.{
  ℕ, ◌-◌, ◌*◌, Bool, true, false, List, [], ◌∷◌, ◌++◌, Option, none, some, max, ltb, ◌==◌, not,
  ◌&&◌, ◌||◌, is_empty, if◌then◌else◌,
}
use strobengine.Prelude.Words.{add64}
use strobengine.Prelude.Maps.{nat_eq, upsert}
use strobengine.Prelude.Floats.{Floats}
use strobengine.Text.Utf8.{Bytes}
use strobengine.Text.Compare.{bytes_eq}
use strobengine.Chaos.{ChaosFault, name}
use strobengine.Metrics.Histograms.{Histograms, to_u64}
use strobengine.Metrics.Samples.{ProtocolSample, QuicSample, Http3Sample}
use strobengine.Metrics.Samples
use strobengine.Metrics.Request.{RequestMetric, is_error}
use strobengine.Metrics.Protocols.{
  GraphqlMetrics, SoapMetrics, QuicMetrics, SseMetrics, WebsocketMetrics, GrpcMetrics, Http3Metrics,
  GraphqlWsMetrics, StompMetrics, DatabaseMetrics,
}
use strobengine.Metrics.Accumulators.{
  add_some, count_some, then_some, GraphqlAccumulator, new_graphql, record_graphql, SoapAccumulator,
  new_soap, record_soap, QuicAccumulator, new_quic, record_quic, finish_quic, SseAccumulator,
  new_sse, record_sse, finish_sse,
}
use strobengine.Metrics.Streams.{
  WsAccumulator, new_ws, record_ws, finish_ws, GrpcAccumulator, new_grpc, record_grpc, finish_grpc,
  Http3Accumulator, new_http3, record_http3, finish_http3,
}
use strobengine.Metrics.Timed.{
  record_some, GraphqlWsAccumulator, new_graphql_ws, record_graphql_ws, finish_graphql_ws,
  StompAccumulator, new_stomp, record_stomp, finish_stomp, DbAccumulator, new_db, record_db,
  finish_db,
}
use strobengine.Metrics.Timeline.{
  Timeline, TimelineAccumulator, record_latency, maybe_emit, finish_timeline, new_timeline,
}

module _ (R : Floats) (I : Histograms) where
  -- The part of `AggregatedMetrics` that every protocol shares.
  pub record CommonMetrics : Type 0 where
    pub latency_histogram : I.H
    pub e2e_latency_histogram : I.H
    pub connection_latency_histogram : I.H
    pub status_codes : List (ℕ × ℕ)
    pub total_bytes : ℕ
    pub chaos_injected_total : ℕ
    pub chaos_faults_by_type : List (Bytes × ℕ)
    pub total_sockets_created : ℕ
    pub total_connections_reused : ℕ
    pub dns_resolution_sum_us : ℕ
    pub dns_resolution_count : ℕ

  unfoldable pub new_common : CommonMetrics
  new_common = record {
    latency_histogram = I.empty;
    e2e_latency_histogram = I.empty;
    connection_latency_histogram = I.empty;
    status_codes = [];
    total_bytes = 0;
    chaos_injected_total = 0;
    chaos_faults_by_type = [];
    total_sockets_created = 0;
    total_connections_reused = 0;
    dns_resolution_sum_us = 0;
    dns_resolution_count = 0;
  }

  unfoldable pub record_some_u128 : I.H → Option ℕ → I.H
  record_some_u128 hist none = hist
  record_some_u128 hist (some us) = I.saturating_record hist (to_u64 us)

  unfoldable pub record_fault_type : List (Bytes × ℕ) → Option ChaosFault → List (Bytes × ℕ)
  record_fault_type faults none = faults
  record_fault_type faults (some fault) = upsert (name fault) 0 (λ n. add64 n 1) faults

  unfoldable pub record_common : CommonMetrics → RequestMetric → ℕ → CommonMetrics
  record_common a m latency_us = record {
    latency_histogram = I.saturating_record a.latency_histogram latency_us;
    e2e_latency_histogram = record_some_u128 a.e2e_latency_histogram m.connection.e2e_latency_us;
    connection_latency_histogram =
        record_some_u128 a.connection_latency_histogram m.connection.connection_latency_us;
    status_codes = upsert m.status_code 0 (λ n. add64 n 1) a.status_codes;
    total_bytes = add64 a.total_bytes m.bytes_received;
    chaos_injected_total = count_some a.chaos_injected_total m.chaos_fault;
    chaos_faults_by_type = record_fault_type a.chaos_faults_by_type m.chaos_fault;
    total_sockets_created =
        if m.connection.is_socket_reused
        then a.total_sockets_created
        else add64 a.total_sockets_created 1;
    total_connections_reused =
        if m.connection.is_socket_reused
        then add64 a.total_connections_reused 1
        else a.total_connections_reused;
    dns_resolution_sum_us = add_some a.dns_resolution_sum_us m.connection.dns_resolution_us;
    dns_resolution_count = count_some a.dns_resolution_count m.connection.dns_resolution_us;
  }

  pub record ProtocolAccumulators : Type 0 where
    pub quic : QuicAccumulator R
    pub sse : SseAccumulator R
    pub graphql : GraphqlAccumulator
    pub graphql_ws : GraphqlWsAccumulator R I
    pub soap : SoapAccumulator
    pub stomp : StompAccumulator R I
    pub db : DbAccumulator R I
    pub ws : WsAccumulator R
    pub grpc : GrpcAccumulator R
    pub http3 : Http3Accumulator R

  unfoldable pub new_protocols : ProtocolAccumulators
  new_protocols = record {
    quic = new_quic R;
    sse = new_sse R;
    graphql = new_graphql;
    graphql_ws = new_graphql_ws R I;
    soap = new_soap;
    stomp = new_stomp R I;
    db = new_db R I;
    ws = new_ws R;
    grpc = new_grpc R;
    http3 = new_http3 R;
  }

  unfoldable pub record_some_quic : QuicAccumulator R → Option QuicSample → QuicAccumulator R
  record_some_quic a none = a
  record_some_quic a (some s) = record_quic R a s

  unfoldable pub record_some_http3 : Http3Accumulator R → Option Http3Sample → Http3Accumulator R
  record_some_http3 a none = a
  record_some_http3 a (some s) = record_http3 R a s

  unfoldable pub record_sample : ProtocolAccumulators → ProtocolSample → ProtocolAccumulators
  record_sample a (Samples.http3 http3_sample quic_sample) = record a {
    quic = record_some_quic a.quic quic_sample;
    http3 = record_some_http3 a.http3 http3_sample;
  }
  record_sample a (Samples.sse s) = record a { sse = record_sse R a.sse s }
  record_sample a (Samples.graphql s) = record a { graphql = record_graphql a.graphql s }
  record_sample a (Samples.graphql_ws s) = record a {
    graphql_ws = record_graphql_ws R I a.graphql_ws s;
  }
  record_sample a (Samples.soap s) = record a { soap = record_soap a.soap s }
  record_sample a (Samples.stomp s) = record a { stomp = record_stomp R I a.stomp s }
  record_sample a (Samples.db s) = record a { db = record_db R I a.db s }
  record_sample a (Samples.ws s) = record a { ws = record_ws R a.ws s }
  record_sample a (Samples.grpc s) = record a { grpc = record_grpc R a.grpc s }

  -- `ProtocolAccumulators::record`
  unfoldable pub record_protocol :
      ProtocolAccumulators → Option ProtocolSample → ProtocolAccumulators
  record_protocol a none = a
  record_protocol a (some s) = record_sample a s

  -- `AggregatedMetrics`
  pub record AggregatedMetrics : Type 0 where
    pub common : CommonMetrics
    pub quic_metrics : Option (QuicMetrics R)
    pub sse_metrics : Option (SseMetrics R)
    pub ws_metrics : Option (WebsocketMetrics R)
    pub grpc_metrics : Option (GrpcMetrics R)
    pub http3_metrics : Option (Http3Metrics R)
    pub graphql_metrics : Option GraphqlMetrics
    pub graphql_ws_metrics : Option (GraphqlWsMetrics R)
    pub soap_metrics : Option SoapMetrics
    pub stomp_metrics : Option (StompMetrics R)
    pub db_metrics : Option (DatabaseMetrics R)
    pub timeline : Option (Timeline R I)

  -- What the loop of `finalize_metrics` carries.
  pub record Running : Type 0 where
    pub metrics : CommonMetrics
    pub protocols : ProtocolAccumulators
    pub line : TimelineAccumulator R I

  unfoldable pub receive : Running → RequestMetric × ℕ → Running
  receive r (m, now) = record {
    metrics = record_common r.metrics m (to_u64 m.latency_micros);
    protocols = record_protocol r.protocols m.protocol;
    line = maybe_emit R I (record_latency R I r.line (to_u64 m.latency_micros) (is_error m)) now;
  }

  unfoldable pub receive_all : Running → List (RequestMetric × ℕ) → Running
  receive_all r [] = r
  receive_all r (m ∷ ms) = receive_all (receive r m) ms

  -- `finish_into`, with the timeline.
  unfoldable pub finish_into : Running → ℕ → AggregatedMetrics
  finish_into r now = record {
    common = r.metrics;
    quic_metrics = finish_quic R r.protocols.quic;
    sse_metrics = finish_sse R r.protocols.sse;
    ws_metrics = finish_ws R r.protocols.ws;
    grpc_metrics = finish_grpc R r.protocols.grpc;
    http3_metrics = finish_http3 R r.protocols.http3;
    graphql_metrics = then_some r.protocols.graphql.has r.protocols.graphql.stats;
    graphql_ws_metrics = finish_graphql_ws R I r.protocols.graphql_ws;
    soap_metrics = then_some r.protocols.soap.has r.protocols.soap.stats;
    stomp_metrics = finish_stomp R I r.protocols.stomp;
    db_metrics = finish_db R I r.protocols.db;
    timeline = finish_timeline R I r.line now;
  }

  unfoldable pub new_running : ℕ → ℕ → Running
  new_running timeline_interval_ms start = record {
    metrics = new_common;
    protocols = new_protocols;
    line = new_timeline R I timeline_interval_ms start;
  }

  unfoldable pub finalize_metrics : ℕ → ℕ → List (RequestMetric × ℕ) → ℕ → AggregatedMetrics
  finalize_metrics timeline_interval_ms start ms end =
      finish_into (receive_all (new_running timeline_interval_ms start) ms) end
