-- ===== src/Metrics/Accumulators.antt =====
-- The accumulators of src/metrics/aggregate.rs that need no histogram: one for each protocol, with
-- `record` and `finish`. The labels of a run (the GraphQL operation type, the SOAP version) are
-- filled in after the aggregation.
use strobengine.Prelude.{
  ℕ, ◌-◌, Bool, true, false, Option, none, some, [], ltb, ◌==◌, ◌||◌, if◌then◌else◌,
}
use strobengine.Prelude.Words.{u64_mod, add64}
use strobengine.Prelude.Floats.{Floats}
use strobengine.Metrics.Samples.{
  QuicSample, SseSample, GraphqlSample, SoapSample, quic_is_significant,
}
use strobengine.Metrics.Protocols.{GraphqlMetrics, SoapMetrics, QuicMetrics, SseMetrics}

abbrev pub u64_max : ℕ
u64_max = u64_mod - 1

-- `if let Some(n) = value { total += n }`
unfoldable pub add_some : ℕ → Option ℕ → ℕ
add_some total none = total
add_some total (some n) = add64 total n

-- `if let Some(_) = value { count += 1 }`
unfoldable pub count_some {ℓ} : {A : Type ℓ} → ℕ → Option A → ℕ
count_some count none = count
count_some count (some n) = add64 count 1

-- `b.then_some(a)`
unfoldable pub then_some {ℓ} : {A : Type ℓ} → Bool → A → Option A
then_some true a = some a
then_some false a = none

-- A minimum that no sample has lowered is reported as 0.
unfoldable pub no_sentinel : ℕ → ℕ
no_sentinel n = if n == u64_max then 0 else n

pub record GraphqlAccumulator : Type 0 where
  pub stats : GraphqlMetrics
  pub has : Bool

unfoldable pub new_graphql : GraphqlAccumulator
new_graphql = record {
  stats = record {
    operations_total = 0;
    error_responses_total = 0;
    errors_total = 0;
    operation_type = [];
  };
  has = false;
}

unfoldable pub record_graphql : GraphqlAccumulator → GraphqlSample → GraphqlAccumulator
record_graphql a s = record {
  stats = record (a.stats) {
    operations_total = add64 a.stats.operations_total 1;
    error_responses_total =
        if ltb 0 s.errors
        then add64 a.stats.error_responses_total 1
        else a.stats.error_responses_total;
    errors_total = add64 a.stats.errors_total s.errors;
  };
  has = true;
}

pub record SoapAccumulator : Type 0 where
  pub stats : SoapMetrics
  pub has : Bool

unfoldable pub new_soap : SoapAccumulator
new_soap = record {
  stats = record { operations_total = 0; fault_responses_total = 0; soap_version = [] };
  has = false;
}

unfoldable pub record_soap : SoapAccumulator → SoapSample → SoapAccumulator
record_soap a s = record {
  stats = record (a.stats) {
    operations_total = add64 a.stats.operations_total 1;
    fault_responses_total =
        if ltb 0 s.faults
        then add64 a.stats.fault_responses_total 1
        else a.stats.fault_responses_total;
  };
  has = true;
}

module _ (R : Floats) where
  -- `sum as f64 / count as f64`
  abbrev pub mean_of : ℕ → ℕ → R.F
  mean_of total count = R.div (R.of_u64 total) (R.of_u64 count)

  pub record QuicAccumulator : Type 0 where
    pub stats : QuicMetrics R
    pub has : Bool
    pub handshake_sum_us : ℕ
    pub handshake_count : ℕ

  unfoldable pub new_quic : QuicAccumulator
  new_quic = record {
    stats = record { zero_rtt_accepted_count = 0; retransmissions = 0; avg_handshake_ms = none };
    has = false;
    handshake_sum_us = 0;
    handshake_count = 0;
  }

  unfoldable pub record_quic : QuicAccumulator → QuicSample → QuicAccumulator
  record_quic a s =
      if quic_is_significant s
      then (record {
        stats = record (a.stats) {
          zero_rtt_accepted_count =
              if s.used_0rtt
              then add64 a.stats.zero_rtt_accepted_count 1
              else a.stats.zero_rtt_accepted_count;
          retransmissions = add_some a.stats.retransmissions s.retransmits;
        };
        has = true;
        handshake_sum_us = add_some a.handshake_sum_us s.handshake_us;
        handshake_count = count_some a.handshake_count s.handshake_us;
      })
      else a

  unfoldable pub finish_quic : QuicAccumulator → Option (QuicMetrics R)
  finish_quic a = then_some a.has (
      if ltb 0 a.handshake_count
      then (record (a.stats) {
        avg_handshake_ms =
            some (R.div (mean_of a.handshake_sum_us a.handshake_count) (R.ratio 1000 1));
      })
      else a.stats)

  pub record SseAccumulator : Type 0 where
    pub stats : SseMetrics R
    pub first_event_sum_us : ℕ
    pub first_event_count : ℕ

  unfoldable pub new_sse : SseAccumulator
  new_sse = record {
    stats = record { total_events_received = 0; avg_ttfb_ms = none };
    first_event_sum_us = 0;
    first_event_count = 0;
  }

  unfoldable pub record_sse : SseAccumulator → SseSample → SseAccumulator
  record_sse a s = record {
    stats = record (a.stats) {
      total_events_received = add_some a.stats.total_events_received s.events_received;
    };
    first_event_sum_us = add_some a.first_event_sum_us s.first_event_us;
    first_event_count = count_some a.first_event_count s.first_event_us;
  }

  unfoldable pub finish_sse : SseAccumulator → Option (SseMetrics R)
  finish_sse a = then_some (ltb 0 a.stats.total_events_received || ltb 0 a.first_event_count) (
      if ltb 0 a.first_event_count
      then (record (a.stats) {
        avg_ttfb_ms =
            some (R.div (mean_of a.first_event_sum_us a.first_event_count) (R.ratio 1000 1));
      })
      else a.stats)
