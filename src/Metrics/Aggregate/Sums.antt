-- ===== src/Metrics/Aggregate/Sums.antt =====
-- The counters of a whole run, over the loop of `finalize_metrics` of src/metrics/aggregate.rs.
use strobengine.Prelude.{ℕ, ◌<◌, ◌≡◌, refl, ◌∙◌, ap, true, Option, none, some, List, [], ◌∷◌, arith}
use strobengine.Prelude.Words.{u64_mod, add64}
use strobengine.Prelude.Totals.{sum_where}
use strobengine.Prelude.Floats.{Floats}
use strobengine.Metrics.Histograms.{Histograms}
use strobengine.Metrics.Samples.{ProtocolSample, QuicSample, Http3Sample}
use strobengine.Metrics.Samples
use strobengine.Metrics.Request.{RequestMetric}
use strobengine.Metrics.Accumulators.{new_quic, new_sse, new_graphql, new_soap}
use strobengine.Metrics.Streams.{new_ws, new_grpc, new_http3}
use strobengine.Metrics.Timed.{new_stomp, new_db, new_graphql_ws}
use strobengine.Metrics.Aggregate.{
  ProtocolAccumulators, new_protocols, record_some_quic, record_some_http3, record_sample,
  record_protocol, Running, receive, receive_all, new_running,
}
use strobengine.Metrics.Aggregate.Totals.{
  WsCounter, of_ws, ws_total, ws_total-record_ws, GrpcCounter, of_grpc, grpc_total,
  grpc_total-record_grpc, Http3Counter, of_http3, http3_total, http3_total-record_http3,
  QuicCounter, of_quic, quic_total, quic_total-record_quic, SseCounter, of_sse, sse_total,
  sse_total-record_sse, GraphqlCounter, of_graphql, graphql_total, graphql_total-record_graphql,
  SoapCounter, of_soap, soap_total, soap_total-record_soap,
}
use strobengine.Metrics.Aggregate.TimedTotals.{
  StompCounter, of_stomp, stomp_total, stomp_total-record_stomp, DbCounter, of_db, db_total,
  db_total-record_db, GraphqlWsCounter, of_graphql_ws, graphql_ws_total,
  graphql_ws_total-record_graphql_ws,
}

-- A counter of one of the protocols.
pub data Tally : Type 0 where
  for_ws : WsCounter → Tally
  for_grpc : GrpcCounter → Tally
  for_http3 : Http3Counter → Tally
  for_quic : QuicCounter → Tally
  for_sse : SseCounter → Tally
  for_graphql : GraphqlCounter → Tally
  for_soap : SoapCounter → Tally
  for_stomp : StompCounter → Tally
  for_db : DbCounter → Tally
  for_graphql_ws : GraphqlWsCounter → Tally

abbrev carried_or_zero {ℓ} : {A : Type ℓ} → (A → ℕ) → Option A → ℕ
carried_or_zero f none = 0
carried_or_zero f (some a) = f a

-- What a sample adds to a counter.
unfoldable pub carried : Tally → ProtocolSample → ℕ
carried (for_ws c) (Samples.ws s) = of_ws c s
carried (for_grpc c) (Samples.grpc s) = of_grpc c s
carried (for_http3 c) (Samples.http3 h q) = carried_or_zero (of_http3 c) h
carried (for_quic c) (Samples.http3 h q) = carried_or_zero (of_quic c) q
carried (for_sse c) (Samples.sse s) = of_sse c s
carried (for_graphql c) (Samples.graphql s) = of_graphql c s
carried (for_soap c) (Samples.soap s) = of_soap c s
carried (for_stomp c) (Samples.stomp s) = of_stomp c s
carried (for_db c) (Samples.db s) = of_db c s
carried (for_graphql_ws c) (Samples.graphql_ws s) = of_graphql_ws c s
carried _ _ = 0

-- What a metric adds to a counter.
abbrev pub carried_by : Tally → RequestMetric × ℕ → ℕ
carried_by t m = carried_or_zero (carried t) m.0.protocol

module _ (R : Floats) (I : Histograms) where
  -- The counter's value.
  unfoldable pub tally : Tally → ProtocolAccumulators R I → ℕ
  tally (for_ws c) a = ws_total R c a.ws
  tally (for_grpc c) a = grpc_total R c a.grpc
  tally (for_http3 c) a = http3_total R c a.http3
  tally (for_quic c) a = quic_total R c a.quic
  tally (for_sse c) a = sse_total R c a.sse
  tally (for_graphql c) a = graphql_total c a.graphql
  tally (for_soap c) a = soap_total c a.soap
  tally (for_stomp c) a = stomp_total R I c a.stomp
  tally (for_db c) a = db_total R I c a.db
  tally (for_graphql_ws c) a = graphql_ws_total R I c a.graphql_ws

  settled : (n : ℕ) → n < u64_mod → n ≡ add64 n 0
  settled n h = omega arith

  tally-record_sample :
      (t : Tally) (a : ProtocolAccumulators R I) (s : ProtocolSample)
      → tally t a < u64_mod
      → tally t (record_sample R I a s) ≡ add64 (tally t a) (carried t s)
  unfolding record_sample tally carried record_some_http3 record_some_quic
  tally-record_sample (for_ws c) a (Samples.ws s) h = ws_total-record_ws R c a.ws s h
  tally-record_sample (for_ws c) a _ h = settled _ h
  tally-record_sample (for_grpc c) a (Samples.grpc s) h = grpc_total-record_grpc R c a.grpc s h
  tally-record_sample (for_grpc c) a _ h = settled _ h
  tally-record_sample (for_http3 c) a (Samples.http3 (some s) q) h =
      http3_total-record_http3 R c a.http3 s h
  tally-record_sample (for_http3 c) a (Samples.http3 none q) h = settled _ h
  tally-record_sample (for_http3 c) a _ h = settled _ h
  tally-record_sample (for_quic c) a (Samples.http3 s (some q)) h =
      quic_total-record_quic R c a.quic q h
  tally-record_sample (for_quic c) a (Samples.http3 s none) h = settled _ h
  tally-record_sample (for_quic c) a _ h = settled _ h
  tally-record_sample (for_sse c) a (Samples.sse s) h = sse_total-record_sse R c a.sse s h
  tally-record_sample (for_sse c) a _ h = settled _ h
  tally-record_sample (for_graphql c) a (Samples.graphql s) h =
      graphql_total-record_graphql c a.graphql s h
  tally-record_sample (for_graphql c) a _ h = settled _ h
  tally-record_sample (for_soap c) a (Samples.soap s) h = soap_total-record_soap c a.soap s h
  tally-record_sample (for_soap c) a _ h = settled _ h
  tally-record_sample (for_stomp c) a (Samples.stomp s) h =
      stomp_total-record_stomp R I c a.stomp s h
  tally-record_sample (for_stomp c) a _ h = settled _ h
  tally-record_sample (for_db c) a (Samples.db s) h = db_total-record_db R I c a.db s h
  tally-record_sample (for_db c) a _ h = settled _ h
  tally-record_sample (for_graphql_ws c) a (Samples.graphql_ws s) h =
      graphql_ws_total-record_graphql_ws R I c a.graphql_ws s h
  tally-record_sample (for_graphql_ws c) a _ h = settled _ h

  tally-record_protocol :
      (t : Tally) (a : ProtocolAccumulators R I) (p : Option ProtocolSample)
      → tally t a < u64_mod
      → tally t (record_protocol R I a p) ≡ add64 (tally t a) (carried_or_zero (carried t) p)
  unfolding record_protocol
  tally-record_protocol t a none h = settled _ h
  tally-record_protocol t a (some s) h = tally-record_sample t a s h

  tally-receive_all :
      (t : Tally) (r : Running R I) (ms : List (RequestMetric × ℕ))
      → tally t r.protocols < u64_mod
      → tally t (receive_all R I r ms).protocols
        ≡ sum_where (λ m. true) (carried_by t) (tally t r.protocols) ms
  unfolding receive_all receive sum_where
  tally-receive_all t r [] h = refl
  tally-receive_all t r (m ∷ ms) h =
      let step = tally-record_protocol t r.protocols m.0.protocol h in
      tally-receive_all t (receive R I r m) ms (omega (arith, step))
      ∙ ap (λ n. sum_where (λ m. true) (carried_by t) n ms) step

  tally-new_protocols : (t : Tally) → tally t (new_protocols R I) ≡ 0
  unfolding tally new_protocols ws_total grpc_total http3_total quic_total sse_total graphql_total
      soap_total stomp_total db_total graphql_ws_total new_ws new_grpc new_http3 new_quic new_sse
      new_graphql new_soap new_stomp new_db new_graphql_ws
  tally-new_protocols (for_ws WsCounter.pings_sent) = refl
  tally-new_protocols (for_ws _) = refl
  tally-new_protocols (for_grpc GrpcCounter.exhaustions) = refl
  tally-new_protocols (for_grpc _) = refl
  tally-new_protocols (for_http3 Http3Counter.windows) = refl
  tally-new_protocols (for_http3 _) = refl
  tally-new_protocols (for_quic QuicCounter.resumptions) = refl
  tally-new_protocols (for_quic _) = refl
  tally-new_protocols (for_sse SseCounter.events) = refl
  tally-new_protocols (for_sse _) = refl
  tally-new_protocols (for_graphql GraphqlCounter.operations) = refl
  tally-new_protocols (for_graphql _) = refl
  tally-new_protocols (for_soap SoapCounter.calls) = refl
  tally-new_protocols (for_soap _) = refl
  tally-new_protocols (for_stomp StompCounter.messages_sent) = refl
  tally-new_protocols (for_stomp _) = refl
  tally-new_protocols (for_db DbCounter.rows) = refl
  tally-new_protocols (for_db _) = refl
  tally-new_protocols (for_graphql_ws GraphqlWsCounter.subscriptions) = refl
  tally-new_protocols (for_graphql_ws _) = refl

  -- At the end of a run each of the counters below is the sum, modulo 2 ^ 64, of what the run's
  -- metrics carry: the WebSocket pings sent and received, the pongs that were solicited and those
  -- that were not, the breaches of the backpressure threshold and the backpressure samples; the
  -- window exhaustions and the stall time of gRPC; the congestion windows and the attempted
  -- migrations of HTTP/3; the resumptions, retransmissions and handshake times of QUIC; the
  -- events of SSE and the times to the first one; the operations, error responses and errors of
  -- GraphQL; the operations and fault responses of SOAP; the messages sent and received, bytes
  -- sent, errors and reconnects of STOMP; the rows and errors of databases; and the
  -- subscriptions, messages and errors of GraphQL over WebSocket.
  pub tallied :
      (t : Tally) (timeline_interval_ms start : ℕ) (ms : List (RequestMetric × ℕ))
      → tally t (receive_all R I (new_running R I timeline_interval_ms start) ms).protocols
        ≡ sum_where (λ m. true) (carried_by t) 0 ms
  unfolding new_running
  tallied t interval start ms =
      let zero_tally = tally-new_protocols t in
      tally-receive_all t (new_running R I interval start) ms (omega (arith, zero_tally))
      ∙ ap (λ n. sum_where (λ m. true) (carried_by t) n ms) zero_tally
