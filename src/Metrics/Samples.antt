-- ===== src/Metrics/Samples.antt =====
-- The samples that the protocol engines report, src/metrics/protocols.rs, with what makes each of
-- them significant. A duration is in microseconds, an f64 is its bits.
use strobengine.Prelude.{ℕ, Bool, true, false, Option, none, some, ltb, ◌||◌}
use strobengine.Prelude.Floats.{Floats}

abbrev pub is_some {ℓ} : {A : Type ℓ} → Option A → Bool
is_some none = false
is_some (some _) = true

pub record WsSample : Type 0 where
  pub pings_sent : ℕ
  pub pings_received : ℕ
  pub pongs_solicited : ℕ
  pub pongs_unsolicited : ℕ
  pub backpressure_max_bytes : ℕ
  pub backpressure_samples_sum : ℕ
  pub backpressure_sample_count : ℕ
  pub threshold_breaches : ℕ

pub record GrpcSample : Type 0 where
  pub active_streams : ℕ
  pub max_concurrent_streams : ℕ
  pub utilization : ℕ
  pub window_exhaustion_events : ℕ
  pub window_stall_us : ℕ
  pub send_capacity_bytes : ℕ
  pub has_send_capacity : Bool

pub record Http3Sample : Type 0 where
  pub cwnd_bytes : ℕ
  pub migrations_attempted : ℕ
  pub migrations_successful : ℕ

pub record StompSample : Type 0 where
  pub messages_sent : ℕ
  pub messages_received : ℕ
  pub bytes_sent : ℕ
  pub bytes_received : ℕ
  pub errors : ℕ
  pub reconnects : ℕ
  pub send_latency_us : Option ℕ
  pub receive_interval_us : Option ℕ
  pub ttfm_us : Option ℕ

pub record DbSample : Type 0 where
  pub rows : ℕ
  pub errors : ℕ
  pub acquire_us : Option ℕ
  pub query_us : Option ℕ
  pub pool_size : ℕ
  pub pool_idle : ℕ

pub record QuicSample : Type 0 where
  pub handshake_us : Option ℕ
  pub used_0rtt : Bool
  pub retransmits : Option ℕ

pub record SseSample : Type 0 where
  pub events_received : Option ℕ
  pub first_event_us : Option ℕ
  pub event_interval_us : Option ℕ

pub record GraphqlSample : Type 0 where
  pub errors : ℕ

pub record GraphqlWsSample : Type 0 where
  pub operations : Option ℕ
  pub ttfm_us : Option ℕ
  pub interval_us : Option ℕ
  pub errors : Option ℕ

pub record SoapSample : Type 0 where
  pub faults : ℕ

pub data ProtocolSample : Type 0 where
  ws : WsSample → ProtocolSample
  grpc : GrpcSample → ProtocolSample
  http3 : Option Http3Sample → Option QuicSample → ProtocolSample
  sse : SseSample → ProtocolSample
  stomp : StompSample → ProtocolSample
  db : DbSample → ProtocolSample
  graphql : GraphqlSample → ProtocolSample
  graphql_ws : GraphqlWsSample → ProtocolSample
  soap : SoapSample → ProtocolSample

unfoldable pub ws_is_significant : WsSample → Bool
ws_is_significant s =
    ltb 0 s.pings_sent
    || ltb 0 s.pings_received
    || ltb 0 s.pongs_solicited
    || ltb 0 s.pongs_unsolicited
    || ltb 0 s.backpressure_max_bytes
    || ltb 0 s.backpressure_sample_count
    || ltb 0 s.threshold_breaches

unfoldable pub http3_is_significant : Http3Sample → Bool
http3_is_significant s = ltb 0 s.cwnd_bytes || ltb 0 s.migrations_attempted

unfoldable pub stomp_is_significant : StompSample → Bool
stomp_is_significant s =
    ltb 0 s.messages_sent
    || ltb 0 s.messages_received
    || ltb 0 s.bytes_sent
    || ltb 0 s.errors
    || ltb 0 s.reconnects
    || is_some s.send_latency_us
    || is_some s.receive_interval_us
    || is_some s.ttfm_us

unfoldable pub db_is_significant : DbSample → Bool
db_is_significant s =
    ltb 0 s.rows
    || ltb 0 s.errors
    || is_some s.acquire_us
    || is_some s.query_us
    || ltb 0 s.pool_size

unfoldable pub quic_is_significant : QuicSample → Bool
quic_is_significant s = is_some s.handshake_us || s.used_0rtt || is_some s.retransmits

unfoldable pub grpc_is_significant : Floats → GrpcSample → Bool
grpc_is_significant R s =
    ltb 0 s.active_streams
    || R.is_positive (R.of_bits s.utilization)
    || ltb 0 s.window_exhaustion_events
    || ltb 0 s.window_stall_us
    || s.has_send_capacity
