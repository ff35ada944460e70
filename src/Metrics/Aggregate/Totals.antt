-- ===== src/Metrics/Aggregate/Totals.antt =====
-- What the protocol accumulators of src/metrics/aggregate.rs count, as far as it is listed here. The
-- code skips a sample that is not significant; such a sample carries nothing of what is listed.
use strobengine.Prelude.{
  ℕ, ◌<◌, ◌≡◌, refl, inl, inr, true, false, Option, none, some, arith, ltb, if◌then◌else◌,
  Bool-cases,
}
use strobengine.Prelude.Words.{u64_mod, add64}
use strobengine.Prelude.Floats.{Floats}
use strobengine.Metrics.Samples.{
  WsSample, GrpcSample, Http3Sample, QuicSample, SseSample, GraphqlSample, SoapSample,
  ws_is_significant, http3_is_significant, quic_is_significant, grpc_is_significant,
}
use strobengine.Metrics.Accumulators.{
  add_some, GraphqlAccumulator, record_graphql, SoapAccumulator, record_soap, QuicAccumulator,
  record_quic, SseAccumulator, record_sse,
}
use strobengine.Metrics.Streams.{
  WsAccumulator, record_ws, GrpcAccumulator, record_grpc, Http3Accumulator, record_http3,
}

abbrev pub value_or_zero : Option ℕ → ℕ
value_or_zero none = 0
value_or_zero (some n) = n

pub data WsCounter : Type 0 where
  pings_sent pings_received pongs_solicited pongs_unsolicited breaches writes : WsCounter

unfoldable pub of_ws : WsCounter → WsSample → ℕ
of_ws pings_sent s = s.pings_sent
of_ws pings_received s = s.pings_received
of_ws pongs_solicited s = s.pongs_solicited
of_ws pongs_unsolicited s = s.pongs_unsolicited
of_ws breaches s = s.threshold_breaches
of_ws writes s = s.backpressure_sample_count

pub data GrpcCounter : Type 0 where
  exhaustions stalls_us : GrpcCounter

unfoldable pub of_grpc : GrpcCounter → GrpcSample → ℕ
of_grpc exhaustions s = s.window_exhaustion_events
of_grpc stalls_us s = s.window_stall_us

pub data Http3Counter : Type 0 where
  windows attempts : Http3Counter

unfoldable pub of_http3 : Http3Counter → Http3Sample → ℕ
of_http3 windows s = s.cwnd_bytes
of_http3 attempts s = s.migrations_attempted

pub data QuicCounter : Type 0 where
  resumptions retransmissions handshakes_us : QuicCounter

unfoldable pub of_quic : QuicCounter → QuicSample → ℕ
of_quic resumptions s = if s.used_0rtt then 1 else 0
of_quic retransmissions s = value_or_zero s.retransmits
of_quic handshakes_us s = value_or_zero s.handshake_us

pub data SseCounter : Type 0 where
  events first_events_us : SseCounter

unfoldable pub of_sse : SseCounter → SseSample → ℕ
of_sse events s = value_or_zero s.events_received
of_sse first_events_us s = value_or_zero s.first_event_us

pub data GraphqlCounter : Type 0 where
  operations error_responses errors : GraphqlCounter

unfoldable pub of_graphql : GraphqlCounter → GraphqlSample → ℕ
of_graphql operations s = 1
of_graphql error_responses s = if ltb 0 s.errors then 1 else 0
of_graphql errors s = s.errors

pub data SoapCounter : Type 0 where
  calls fault_responses : SoapCounter

unfoldable pub of_soap : SoapCounter → SoapSample → ℕ
of_soap calls s = 1
of_soap fault_responses s = if ltb 0 s.faults then 1 else 0

unfoldable pub graphql_total : GraphqlCounter → GraphqlAccumulator → ℕ
graphql_total operations a = a.stats.operations_total
graphql_total error_responses a = a.stats.error_responses_total
graphql_total errors a = a.stats.errors_total

pub graphql_total-record_graphql :
    (c : GraphqlCounter) (a : GraphqlAccumulator) (s : GraphqlSample)
    → graphql_total c a < u64_mod
    → graphql_total c (record_graphql a s) ≡ add64 (graphql_total c a) (of_graphql c s)
unfolding record_graphql graphql_total of_graphql
graphql_total-record_graphql operations a s h = ground arith
graphql_total-record_graphql _ a s h = ground arith

unfoldable pub soap_total : SoapCounter → SoapAccumulator → ℕ
soap_total calls a = a.stats.operations_total
soap_total fault_responses a = a.stats.fault_responses_total

pub soap_total-record_soap :
    (c : SoapCounter) (a : SoapAccumulator) (s : SoapSample)
    → soap_total c a < u64_mod
    → soap_total c (record_soap a s) ≡ add64 (soap_total c a) (of_soap c s)
unfolding record_soap soap_total of_soap
soap_total-record_soap calls a s h = ground arith
soap_total-record_soap _ a s h = ground arith

module _ (R : Floats) where
  unfoldable pub ws_total : WsCounter → WsAccumulator R → ℕ
  ws_total pings_sent a = a.stats.pings_sent_total
  ws_total pings_received a = a.stats.pings_received_total
  ws_total pongs_solicited a = a.stats.pongs_solicited_total
  ws_total pongs_unsolicited a = a.stats.pongs_unsolicited_total
  ws_total breaches a = a.stats.backpressure_threshold_breaches
  ws_total writes a = a.bp_count

  insignificant_ws : (c : WsCounter) (s : WsSample) → ws_is_significant s ≡ false → of_ws c s ≡ 0
  unfolding ws_is_significant of_ws
  insignificant_ws pings_sent s h = ground arith
  insignificant_ws _ s h = ground arith

  ws_total-significant :
      (c : WsCounter) (a : WsAccumulator R) (s : WsSample)
      → ws_is_significant s ≡ true
      → ws_total c a < u64_mod
      → ws_total c (record_ws R a s) ≡ add64 (ws_total c a) (of_ws c s)
  unfolding record_ws ws_total of_ws
  ws_total-significant pings_sent a s t h = rw (t, record_ws) refl
  ws_total-significant _ a s t h = rw (t, record_ws) refl

  pub ws_total-record_ws :
      (c : WsCounter) (a : WsAccumulator R) (s : WsSample)
      → ws_total c a < u64_mod
      → ws_total c (record_ws R a s) ≡ add64 (ws_total c a) (of_ws c s)
  unfolding record_ws
  ws_total-record_ws c a s h = elim (Bool-cases (ws_is_significant s)) [
    | inl t ↦ ws_total-significant c a s t h
    | inr t ↦ rw (t, record_ws) (omega (arith, insignificant_ws c s t))
  ]

  unfoldable pub grpc_total : GrpcCounter → GrpcAccumulator R → ℕ
  grpc_total exhaustions a = a.stats.window_exhaustion_events_total
  grpc_total stalls_us a = a.stall_sum_us

  insignificant_grpc :
      (c : GrpcCounter) (s : GrpcSample) → grpc_is_significant R s ≡ false → of_grpc c s ≡ 0
  unfolding grpc_is_significant of_grpc
  insignificant_grpc exhaustions s h = ground arith
  insignificant_grpc _ s h = ground arith

  grpc_total-significant :
      (c : GrpcCounter) (a : GrpcAccumulator R) (s : GrpcSample)
      → grpc_is_significant R s ≡ true
      → grpc_total c a < u64_mod
      → grpc_total c (record_grpc R a s) ≡ add64 (grpc_total c a) (of_grpc c s)
  unfolding record_grpc grpc_total of_grpc
  grpc_total-significant exhaustions a s t h = rw (t, record_grpc) refl
  grpc_total-significant _ a s t h = rw (t, record_grpc) refl

  pub grpc_total-record_grpc :
      (c : GrpcCounter) (a : GrpcAccumulator R) (s : GrpcSample)
      → grpc_total c a < u64_mod
      → grpc_total c (record_grpc R a s) ≡ add64 (grpc_total c a) (of_grpc c s)
  unfolding record_grpc
  grpc_total-record_grpc c a s h = elim (Bool-cases (grpc_is_significant R s)) [
    | inl t ↦ grpc_total-significant c a s t h
    | inr t ↦ rw (t, record_grpc) (omega (arith, insignificant_grpc c s t))
  ]

  unfoldable pub http3_total : Http3Counter → Http3Accumulator R → ℕ
  http3_total windows a = a.cwnd_sum
  http3_total attempts a = a.stats.migrations_attempted_total

  insignificant_http3 :
      (c : Http3Counter) (s : Http3Sample) → http3_is_significant s ≡ false → of_http3 c s ≡ 0
  unfolding http3_is_significant of_http3
  insignificant_http3 windows s h = ground arith
  insignificant_http3 _ s h = ground arith

  http3_total-significant :
      (c : Http3Counter) (a : Http3Accumulator R) (s : Http3Sample)
      → http3_is_significant s ≡ true
      → http3_total c a < u64_mod
      → http3_total c (record_http3 R a s) ≡ add64 (http3_total c a) (of_http3 c s)
  unfolding record_http3 http3_total of_http3
  http3_total-significant windows a s t h = rw (t, record_http3) refl
  http3_total-significant _ a s t h = rw (t, record_http3) refl

  pub http3_total-record_http3 :
      (c : Http3Counter) (a : Http3Accumulator R) (s : Http3Sample)
      → http3_total c a < u64_mod
      → http3_total c (record_http3 R a s) ≡ add64 (http3_total c a) (of_http3 c s)
  unfolding record_http3
  http3_total-record_http3 c a s h = elim (Bool-cases (http3_is_significant s)) [
    | inl t ↦ http3_total-significant c a s t h
    | inr t ↦ rw (t, record_http3) (omega (arith, insignificant_http3 c s t))
  ]

  unfoldable pub quic_total : QuicCounter → QuicAccumulator R → ℕ
  quic_total resumptions a = a.stats.zero_rtt_accepted_count
  quic_total retransmissions a = a.stats.retransmissions
  quic_total handshakes_us a = a.handshake_sum_us

  insignificant_quic :
      (c : QuicCounter) (s : QuicSample) → quic_is_significant s ≡ false → of_quic c s ≡ 0
  unfolding quic_is_significant of_quic
  insignificant_quic resumptions s h = ground arith
  insignificant_quic _ s h = ground arith

  quic_total-significant :
      (c : QuicCounter) (a : QuicAccumulator R) (s : QuicSample)
      → quic_is_significant s ≡ true
      → quic_total c a < u64_mod
      → quic_total c (record_quic R a s) ≡ add64 (quic_total c a) (of_quic c s)
  unfolding record_quic quic_total of_quic add_some
  quic_total-significant resumptions a s t h = ground arith
  quic_total-significant _ a s t h = ground arith

  pub quic_total-record_quic :
      (c : QuicCounter) (a : QuicAccumulator R) (s : QuicSample)
      → quic_total c a < u64_mod
      → quic_total c (record_quic R a s) ≡ add64 (quic_total c a) (of_quic c s)
  unfolding record_quic
  quic_total-record_quic c a s h = elim (Bool-cases (quic_is_significant s)) [
    | inl t ↦ quic_total-significant c a s t h
    | inr t ↦ rw (t, record_quic) (omega (arith, insignificant_quic c s t))
  ]

  unfoldable pub sse_total : SseCounter → SseAccumulator R → ℕ
  sse_total events a = a.stats.total_events_received
  sse_total first_events_us a = a.first_event_sum_us

  pub sse_total-record_sse :
      (c : SseCounter) (a : SseAccumulator R) (s : SseSample)
      → sse_total c a < u64_mod
      → sse_total c (record_sse R a s) ≡ add64 (sse_total c a) (of_sse c s)
  unfolding record_sse sse_total of_sse add_some
  sse_total-record_sse events a s h = ground arith
  sse_total-record_sse _ a s h = ground arith
