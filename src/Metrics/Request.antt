-- ===== src/Metrics/Request.antt =====
-- The metric of one request, src/metrics/request.rs: its builder, its accessors and what counts as
-- an error.  A u128 is a number.
use strobengine.Prelude.{
  ℕ, Bool, true, false, Option, none, some, ltb, leb, ◌==◌, ◌||◌, if◌then◌else◌,
}
use strobengine.Metrics.Samples.{
  WsSample, GrpcSample, Http3Sample, StompSample, DbSample, QuicSample, SseSample, GraphqlSample,
  GraphqlWsSample, SoapSample, ProtocolSample,
}
use strobengine.Metrics.Samples
use strobengine.Chaos.{ChaosFault}

pub record ConnectionMetrics : Type 0 where
  pub connection_latency_us : Option ℕ
  pub timestamp_sent_ns : Option ℕ
  pub e2e_latency_us : Option ℕ
  pub dns_resolution_us : Option ℕ
  pub is_socket_reused : Bool

pub record RequestMetric : Type 0 where
  pub latency_micros : ℕ
  pub status_code : ℕ
  pub bytes_received : ℕ
  pub is_reconnect : Bool
  pub connection : ConnectionMetrics
  pub protocol : Option ProtocolSample
  pub chaos_fault : Option ChaosFault

abbrev no_connection : ConnectionMetrics
no_connection = record {
  connection_latency_us = none;
  timestamp_sent_ns = none;
  e2e_latency_us = none;
  dns_resolution_us = none;
  is_socket_reused = false;
}

-- `RequestMetric::builder`; the builder is the metric that it wraps.
unfoldable pub builder : ℕ → Option ChaosFault → RequestMetric
builder latency_micros chaos_fault = record {
  latency_micros = latency_micros;
  status_code = 0;
  bytes_received = 0;
  is_reconnect = false;
  connection = no_connection;
  protocol = none;
  chaos_fault = chaos_fault;
}

unfoldable pub has_errors : ProtocolSample → Bool
has_errors (Samples.graphql s) = ltb 0 s.errors
has_errors (Samples.graphql_ws s) = elim s.errors [ none ↦ false | some n ↦ ltb 0 n ]
has_errors (Samples.soap s) = ltb 0 s.faults
has_errors (Samples.stomp s) = ltb 0 s.errors
has_errors (Samples.db s) = ltb 0 s.errors
has_errors _ = false

unfoldable pub is_error : RequestMetric → Bool
is_error m =
    if m.status_code == 0 || leb 400 m.status_code
    then true
    else elim m.protocol [ none ↦ false | some s ↦ has_errors s ]

unfoldable pub status : ℕ → RequestMetric → RequestMetric
status status_code m = record m { status_code = status_code }

unfoldable pub bytes : ℕ → RequestMetric → RequestMetric
bytes bytes_received m = record m { bytes_received = bytes_received }

unfoldable pub reconnect : Bool → RequestMetric → RequestMetric
reconnect is_reconnect m = record m { is_reconnect = is_reconnect }

unfoldable pub socket_reused : Bool → RequestMetric → RequestMetric
socket_reused reused m = record m {
  connection = record (m.connection) { is_socket_reused = reused };
}

unfoldable pub connection_latency_us : Option ℕ → RequestMetric → RequestMetric
connection_latency_us us m = record m {
  connection = record (m.connection) { connection_latency_us = us };
}

unfoldable pub timestamp_sent_ns : Option ℕ → RequestMetric → RequestMetric
timestamp_sent_ns ns m = record m { connection = record (m.connection) { timestamp_sent_ns = ns } }

unfoldable pub e2e_latency_us : Option ℕ → RequestMetric → RequestMetric
e2e_latency_us us m = record m { connection = record (m.connection) { e2e_latency_us = us } }

unfoldable pub dns_resolution_us : Option ℕ → RequestMetric → RequestMetric
dns_resolution_us us m = record m { connection = record (m.connection) { dns_resolution_us = us } }

-- The HTTP/3 sample is kept beside a new QUIC sample.
unfoldable pub with_quic : QuicSample → Option ProtocolSample → ProtocolSample
with_quic q (some (Samples.http3 h _)) = Samples.http3 h (some q)
with_quic q _ = Samples.http3 none (some q)

unfoldable pub quic : Option ℕ → Bool → Option ℕ → RequestMetric → RequestMetric
quic handshake_us used_0rtt retransmits m = record m {
  protocol = some (
      with_quic
        (record { handshake_us = handshake_us; used_0rtt = used_0rtt; retransmits = retransmits })
        m.protocol);
}

unfoldable pub with_http3 : Http3Sample → Option ProtocolSample → ProtocolSample
with_http3 h (some (Samples.http3 _ q)) = Samples.http3 (some h) q
with_http3 h _ = Samples.http3 (some h) none

unfoldable pub http3 : Option Http3Sample → RequestMetric → RequestMetric
http3 none m = m
http3 (some h) m = record m { protocol = some (with_http3 h m.protocol) }

unfoldable pub sse_events : Option ℕ → Option ℕ → Option ℕ → RequestMetric → RequestMetric
sse_events events first_event_us event_interval_us m = record m {
  protocol = some (
      Samples.sse (record {
        events_received = events;
        first_event_us = first_event_us;
        event_interval_us = event_interval_us;
      }));
}

-- `ws`, `grpc`, `stomp`, `db`: a sample that is there replaces the protocol's.
unfoldable pub with_sample {ℓ} :
    {A : Type ℓ} → (A → ProtocolSample) → Option A → RequestMetric → RequestMetric
with_sample of_sample none m = m
with_sample of_sample (some s) m = record m { protocol = some (of_sample s) }

unfoldable pub graphql : Option ℕ → RequestMetric → RequestMetric
graphql none m = m
graphql (some errors) m = record m {
  protocol = some (Samples.graphql (record { errors = errors }));
}

unfoldable pub soap : Option ℕ → RequestMetric → RequestMetric
soap none m = m
soap (some faults) m = record m { protocol = some (Samples.soap (record { faults = faults })) }

unfoldable pub graphql_ws :
    Option ℕ → Option ℕ → Option ℕ → Option ℕ → RequestMetric → RequestMetric
graphql_ws operations ttfm_us interval_us errors m = record m {
  protocol = some (
      Samples.graphql_ws (record {
        operations = operations;
        ttfm_us = ttfm_us;
        interval_us = interval_us;
        errors = errors;
      }));
}

-- The accessors `http3` and `quic` of a metric.
unfoldable pub http3_sample : RequestMetric → Option Http3Sample
http3_sample m = elim m.protocol [ some (Samples.http3 h q) ↦ h | _ ↦ none ]

unfoldable pub quic_sample : RequestMetric → Option QuicSample
quic_sample m = elim m.protocol [ some (Samples.http3 h q) ↦ q | _ ↦ none ]
