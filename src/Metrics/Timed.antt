-- ===== src/Metrics/Timed.antt =====
-- The accumulators of src/metrics/aggregate.rs that keep histograms: GraphQL over WebSocket, STOMP
-- and databases.
use strobengine.Prelude.{ℕ, Bool, true, false, Option, none, some, ltb, ◌||◌, if◌then◌else◌}
use strobengine.Prelude.Words.{add64}
use strobengine.Prelude.Floats.{Floats}
use strobengine.Metrics.Histograms.{Histograms}
use strobengine.Metrics.Samples.{
  GraphqlWsSample, StompSample, DbSample, is_some, stomp_is_significant, db_is_significant,
}
use strobengine.Metrics.Protocols.{
  GraphqlWsMetrics, StompMetrics, DatabaseMetrics, no_percentiles, graphql_ws_stats_from_histograms,
  stomp_stats_from_histograms, db_stats_from_histograms,
}
use strobengine.Metrics.Accumulators.{add_some, count_some, then_some}

module _ (R : Floats) (I : Histograms) where
  -- `if let Some(us) = value { hist.saturating_record(us) }`
  unfoldable pub record_some : I.H → Option ℕ → I.H
  record_some hist none = hist
  record_some hist (some us) = I.saturating_record hist us

  pub record GraphqlWsAccumulator : Type 0 where
    pub stats : GraphqlWsMetrics R
    pub has : Bool
    pub ttfm : I.H
    pub interval : I.H

  unfoldable pub new_graphql_ws : GraphqlWsAccumulator
  new_graphql_ws = record {
    stats = record {
      operations_total = 0;
      messages_total = 0;
      errors_total = 0;
      ttfm = no_percentiles R;
      interval = no_percentiles R;
    };
    has = false;
    ttfm = I.empty;
    interval = I.empty;
  }

  -- `has` becomes true with any of the four fields.
  unfoldable pub graphql_ws_is_some : GraphqlWsSample → Bool
  graphql_ws_is_some s =
      is_some s.operations || is_some s.ttfm_us || is_some s.interval_us || is_some s.errors

  unfoldable pub record_graphql_ws : GraphqlWsAccumulator → GraphqlWsSample → GraphqlWsAccumulator
  record_graphql_ws a s = record {
    stats = record (a.stats) {
      operations_total = add_some a.stats.operations_total s.operations;
      messages_total = count_some a.stats.messages_total s.interval_us;
      errors_total = add_some a.stats.errors_total s.errors;
    };
    has = a.has || graphql_ws_is_some s;
    ttfm = record_some a.ttfm s.ttfm_us;
    interval = record_some a.interval s.interval_us;
  }

  unfoldable pub finish_graphql_ws : GraphqlWsAccumulator → Option (GraphqlWsMetrics R)
  finish_graphql_ws a =
      then_some a.has (graphql_ws_stats_from_histograms R I a.stats a.ttfm a.interval)

  pub record StompAccumulator : Type 0 where
    pub stats : StompMetrics R
    pub has : Bool
    pub send : I.H
    pub interval : I.H
    pub ttfm : I.H

  unfoldable pub new_stomp : StompAccumulator
  new_stomp = record {
    stats = record {
      messages_sent_total = 0;
      messages_received_total = 0;
      bytes_sent_total = 0;
      errors_total = 0;
      reconnects_total = 0;
      send_latency = no_percentiles R;
      receive_interval = no_percentiles R;
      ttfm = no_percentiles R;
    };
    has = false;
    send = I.empty;
    interval = I.empty;
    ttfm = I.empty;
  }

  unfoldable pub record_stomp : StompAccumulator → StompSample → StompAccumulator
  record_stomp a s =
      if stomp_is_significant s
      then (record {
        stats = record (a.stats) {
          messages_sent_total = add64 a.stats.messages_sent_total s.messages_sent;
          messages_received_total = add64 a.stats.messages_received_total s.messages_received;
          bytes_sent_total = add64 a.stats.bytes_sent_total s.bytes_sent;
          errors_total = add64 a.stats.errors_total s.errors;
          reconnects_total = add64 a.stats.reconnects_total s.reconnects;
        };
        has = true;
        send = record_some a.send s.send_latency_us;
        interval = record_some a.interval s.receive_interval_us;
        ttfm = record_some a.ttfm s.ttfm_us;
      })
      else a

  unfoldable pub finish_stomp : StompAccumulator → Option (StompMetrics R)
  finish_stomp a =
      then_some a.has (stomp_stats_from_histograms R I a.stats a.send a.interval a.ttfm)

  pub record DbAccumulator : Type 0 where
    pub stats : DatabaseMetrics R
    pub has : Bool
    pub acquire : I.H
    pub query : I.H

  unfoldable pub new_db : DbAccumulator
  new_db = record {
    stats = record {
      queries_total = 0;
      rows_total = 0;
      errors_total = 0;
      pool_size = 0;
      pool_acquire = no_percentiles R;
      query = no_percentiles R;
    };
    has = false;
    acquire = I.empty;
    query = I.empty;
  }

  unfoldable pub record_db : DbAccumulator → DbSample → DbAccumulator
  record_db a s =
      if db_is_significant s
      then (record {
        stats = record (a.stats) {
          queries_total = add64 a.stats.queries_total 1;
          rows_total = add64 a.stats.rows_total s.rows;
          errors_total = add64 a.stats.errors_total s.errors;
          pool_size = if ltb 0 s.pool_size then s.pool_size else a.stats.pool_size;
        };
        has = true;
        acquire = record_some a.acquire s.acquire_us;
        query = record_some a.query s.query_us;
      })
      else a

  unfoldable pub finish_db : DbAccumulator → Option (DatabaseMetrics R)
  finish_db a = then_some a.has (db_stats_from_histograms R I a.stats a.acquire a.query)
