-- ===== src/Metrics/Aggregate/Presence.antt =====
-- Which protocol sections `finalize_metrics` of src/metrics/aggregate.rs fills in.
use strobengine.Prelude.{
  ℕ, ◌≡◌, refl, sym, ◌∙◌, ap, inl, inr, Bool, true, false, ◌||◌, Option, none, some, List, [], ◌∷◌,
  Bool-cases,
}
use strobengine.Prelude.Floats.{Floats}
use strobengine.Metrics.Histograms.{Histograms}
use strobengine.Metrics.Samples.{
  ProtocolSample, is_some, ws_is_significant, grpc_is_significant, http3_is_significant,
  quic_is_significant, stomp_is_significant, db_is_significant,
}
use strobengine.Metrics.Samples
use strobengine.Metrics.Request.{RequestMetric}
use strobengine.Metrics.Accumulators.{
  then_some, record_quic, finish_quic, record_graphql, record_soap, new_quic, new_graphql, new_soap,
}
use strobengine.Metrics.Streams.{
  record_ws, finish_ws, record_grpc, finish_grpc, record_http3, finish_http3, new_ws, new_grpc,
  new_http3,
}
use strobengine.Metrics.Timed.{
  record_stomp, finish_stomp, record_db, finish_db, record_graphql_ws, finish_graphql_ws,
  graphql_ws_is_some, new_stomp, new_db, new_graphql_ws,
}
use strobengine.Metrics.Aggregate.{
  AggregatedMetrics, ProtocolAccumulators, new_protocols, record_some_quic, record_some_http3,
  record_sample, record_protocol, Running, receive, receive_all, new_running, finish_into,
  finalize_metrics,
}

-- The protocols whose accumulator has a flag `has`.
pub data Protocol : Type 0 where
  ws grpc http3 quic graphql soap stomp db graphql_ws : Protocol

abbrev passes {ℓ} : {A : Type ℓ} → (A → Bool) → Option A → Bool
passes f none = false
passes f (some a) = f a

module _ (R : Floats) (I : Histograms) where
  -- The sample is one of the protocol that its accumulator does not skip.
  unfoldable pub marks : Protocol → ProtocolSample → Bool
  marks Protocol.ws (Samples.ws s) = ws_is_significant s
  marks Protocol.grpc (Samples.grpc s) = grpc_is_significant R s
  marks Protocol.http3 (Samples.http3 h q) = passes http3_is_significant h
  marks Protocol.quic (Samples.http3 h q) = passes quic_is_significant q
  marks Protocol.graphql (Samples.graphql s) = true
  marks Protocol.soap (Samples.soap s) = true
  marks Protocol.stomp (Samples.stomp s) = stomp_is_significant s
  marks Protocol.db (Samples.db s) = db_is_significant s
  marks Protocol.graphql_ws (Samples.graphql_ws s) = graphql_ws_is_some R I s
  marks _ _ = false

  unfoldable has : Protocol → ProtocolAccumulators R I → Bool
  has Protocol.ws a = a.ws.has
  has Protocol.grpc a = a.grpc.has
  has Protocol.http3 a = a.http3.has
  has Protocol.quic a = a.quic.has
  has Protocol.graphql a = a.graphql.has
  has Protocol.soap a = a.soap.has
  has Protocol.stomp a = a.stomp.has
  has Protocol.db a = a.db.has
  has Protocol.graphql_ws a = a.graphql_ws.has

  -- The report has a section for the protocol.
  unfoldable pub is_reported : Protocol → AggregatedMetrics R I → Bool
  is_reported Protocol.ws m = is_some m.ws_metrics
  is_reported Protocol.grpc m = is_some m.grpc_metrics
  is_reported Protocol.http3 m = is_some m.http3_metrics
  is_reported Protocol.quic m = is_some m.quic_metrics
  is_reported Protocol.graphql m = is_some m.graphql_metrics
  is_reported Protocol.soap m = is_some m.soap_metrics
  is_reported Protocol.stomp m = is_some m.stomp_metrics
  is_reported Protocol.db m = is_some m.db_metrics
  is_reported Protocol.graphql_ws m = is_some m.graphql_ws_metrics

  or_false : (b : Bool) → b ≡ b || false
  or_false true = refl
  or_false false = refl

  or_true : (b : Bool) → true ≡ b || true
  or_true true = refl
  or_true false = refl

  or_assoc : (a b c : Bool) → a || (b || c) ≡ (a || b) || c
  or_assoc true b c = refl
  or_assoc false b c = refl

  has-record_sample :
      (p : Protocol) (a : ProtocolAccumulators R I) (s : ProtocolSample)
      → has p (record_sample R I a s) ≡ has p a || marks p s
  unfolding record_sample has marks record_some_http3 record_some_quic record_graphql record_soap
      record_graphql_ws record_ws record_grpc record_http3 record_quic record_stomp record_db
  has-record_sample Protocol.ws a (Samples.ws s) = elim (Bool-cases (ws_is_significant s)) [
    | inl t ↦ rw (t, record_ws) (or_true a.ws.has)
    | inr t ↦ rw (t, record_ws) (or_false a.ws.has)
  ]
  has-record_sample Protocol.ws a _ = or_false _
  has-record_sample Protocol.grpc a (Samples.grpc s) = elim (Bool-cases (grpc_is_significant R s)) [
    | inl t ↦ rw (t, record_grpc) (or_true a.grpc.has)
    | inr t ↦ rw (t, record_grpc) (or_false a.grpc.has)
  ]
  has-record_sample Protocol.grpc a _ = or_false _
  has-record_sample Protocol.http3 a (Samples.http3 (some s) q) =
      elim (Bool-cases (http3_is_significant s)) [
        | inl t ↦ rw (t, record_http3) (or_true a.http3.has)
        | inr t ↦ rw (t, record_http3) (or_false a.http3.has)
      ]
  has-record_sample Protocol.http3 a (Samples.http3 none q) = or_false _
  has-record_sample Protocol.http3 a _ = or_false _
  has-record_sample Protocol.quic a (Samples.http3 h (some s)) =
      elim (Bool-cases (quic_is_significant s)) [
        | inl t ↦ rw (t, record_quic) (or_true a.quic.has)
        | inr t ↦ rw (t, record_quic) (or_false a.quic.has)
      ]
  has-record_sample Protocol.quic a (Samples.http3 h none) = or_false _
  has-record_sample Protocol.quic a _ = or_false _
  has-record_sample Protocol.graphql a (Samples.graphql s) = or_true _
  has-record_sample Protocol.graphql a _ = or_false _
  has-record_sample Protocol.soap a (Samples.soap s) = or_true _
  has-record_sample Protocol.soap a _ = or_false _
  has-record_sample Protocol.stomp a (Samples.stomp s) =
      elim (Bool-cases (stomp_is_significant s)) [
        | inl t ↦ rw (t, record_stomp) (or_true a.stomp.has)
        | inr t ↦ rw (t, record_stomp) (or_false a.stomp.has)
      ]
  has-record_sample Protocol.stomp a _ = or_false _
  has-record_sample Protocol.db a (Samples.db s) = elim (Bool-cases (db_is_significant s)) [
    | inl t ↦ rw (t, record_db) (or_true a.db.has)
    | inr t ↦ rw (t, record_db) (or_false a.db.has)
  ]
  has-record_sample Protocol.db a _ = or_false _
  has-record_sample Protocol.graphql_ws a (Samples.graphql_ws s) = refl
  has-record_sample Protocol.graphql_ws a _ = or_false _

  -- Some metric of the run carries a sample that marks the protocol.
  unfoldable pub any_marks : Protocol → List (RequestMetric × ℕ) → Bool
  any_marks p [] = false
  any_marks p (m ∷ ms) = passes (marks p) m.0.protocol || any_marks p ms

  has-record_protocol :
      (p : Protocol) (a : ProtocolAccumulators R I) (s : Option ProtocolSample)
      → has p (record_protocol R I a s) ≡ has p a || passes (marks p) s
  unfolding record_protocol
  has-record_protocol p a none = or_false _
  has-record_protocol p a (some s) = has-record_sample p a s

  has-receive_all :
      (p : Protocol) (r : Running R I) (ms : List (RequestMetric × ℕ))
      → has p (receive_all R I r ms).protocols ≡ has p r.protocols || any_marks p ms
  unfolding receive_all receive any_marks
  has-receive_all p r [] = or_false _
  has-receive_all p r (m ∷ ms) =
      has-receive_all p (receive R I r m) ms
      ∙ ap (λ b. b || any_marks p ms) (has-record_protocol p r.protocols m.0.protocol)
      ∙ sym (or_assoc (has p r.protocols) _ _)

  has-new_protocols : (p : Protocol) → has p (new_protocols R I) ≡ false
  unfolding has new_protocols new_ws new_grpc new_http3 new_quic new_graphql new_soap new_stomp
      new_db new_graphql_ws
  has-new_protocols Protocol.ws = refl
  has-new_protocols _ = refl

  is_some-then_some {ℓ} : {A : Type ℓ} (b : Bool) (a : A) → is_some (then_some b a) ≡ b
  unfolding then_some
  is_some-then_some true a = refl
  is_some-then_some false a = refl

  is_reported-finish_into :
      (p : Protocol) (r : Running R I) (now : ℕ)
      → is_reported p (finish_into R I r now) ≡ has p r.protocols
  unfolding finish_into is_reported has finish_ws finish_grpc finish_http3 finish_quic finish_stomp
      finish_db finish_graphql_ws
  is_reported-finish_into Protocol.ws r now = is_some-then_some r.protocols.ws.has _
  is_reported-finish_into _ r now = is_some-then_some _ _

  -- The report of a run has a section for a protocol exactly when some metric of the run carries a
  -- sample of that protocol that is not skipped.
  pub reported_iff_marked :
      (p : Protocol) (timeline_interval_ms start end : ℕ) (ms : List (RequestMetric × ℕ))
      → is_reported p (finalize_metrics R I timeline_interval_ms start ms end) ≡ any_marks p ms
  unfolding finalize_metrics new_running
  reported_iff_marked p interval start end ms =
      is_reported-finish_into p _ end
      ∙ has-receive_all p (new_running R I interval start) ms
      ∙ ap (λ b. b || any_marks p ms) (has-new_protocols p)
