-- ===== src/Metrics/Aggregate/TimedTotals.antt =====
-- What the protocol accumulators of src/metrics/aggregate.rs count that keep
-- histograms, as far as it is listed here. The code skips a sample that is not significant; such a
-- sample carries nothing of what is listed.
use strobengine.Prelude.{ℕ, ◌<◌, ◌≡◌, refl, inl, inr, true, false, arith, if◌then◌else◌, Bool-cases}
use strobengine.Prelude.Words.{u64_mod, add64}
use strobengine.Prelude.Floats.{Floats}
use strobengine.Metrics.Histograms.{Histograms}
use strobengine.Metrics.Samples.{
  is_some, StompSample, DbSample, GraphqlWsSample, stomp_is_significant, db_is_significant,
}
use strobengine.Metrics.Accumulators.{add_some, count_some}
use strobengine.Metrics.Timed.{
  GraphqlWsAccumulator, record_graphql_ws, StompAccumulator, record_stomp, DbAccumulator, record_db,
}
use strobengine.Metrics.Aggregate.Totals.{value_or_zero}

pub data StompCounter : Type 0 where
  messages_sent messages_received bytes_sent stomp_errors reconnects : StompCounter

unfoldable pub of_stomp : StompCounter → StompSample → ℕ
of_stomp messages_sent s = s.messages_sent
of_stomp messages_received s = s.messages_received
of_stomp bytes_sent s = s.bytes_sent
of_stomp stomp_errors s = s.errors
of_stomp reconnects s = s.reconnects

pub data DbCounter : Type 0 where
  rows db_errors : DbCounter

unfoldable pub of_db : DbCounter → DbSample → ℕ
of_db rows s = s.rows
of_db db_errors s = s.errors

pub data GraphqlWsCounter : Type 0 where
  subscriptions messages subscription_errors : GraphqlWsCounter

unfoldable pub of_graphql_ws : GraphqlWsCounter → GraphqlWsSample → ℕ
of_graphql_ws subscriptions s = value_or_zero s.operations
of_graphql_ws messages s = if is_some s.interval_us then 1 else 0
of_graphql_ws subscription_errors s = value_or_zero s.errors

module _ (R : Floats) (I : Histograms) where
  unfoldable pub stomp_total : StompCounter → StompAccumulator R I → ℕ
  stomp_total messages_sent a = a.stats.messages_sent_total
  stomp_total messages_received a = a.stats.messages_received_total
  stomp_total bytes_sent a = a.stats.bytes_sent_total
  stomp_total stomp_errors a = a.stats.errors_total
  stomp_total reconnects a = a.stats.reconnects_total

  insignificant_stomp :
      (c : StompCounter) (s : StompSample) → stomp_is_significant s ≡ false → of_stomp c s ≡ 0
  unfolding stomp_is_significant of_stomp
  insignificant_stomp messages_sent s h = ground arith
  insignificant_stomp _ s h = ground arith

  stomp_total-significant :
      (c : StompCounter) (a : StompAccumulator R I) (s : StompSample)
      → stomp_is_significant s ≡ true
      → stomp_total c a < u64_mod
      → stomp_total c (record_stomp R I a s) ≡ add64 (stomp_total c a) (of_stomp c s)
  unfolding record_stomp stomp_total of_stomp
  stomp_total-significant messages_sent a s t h = rw (t, record_stomp) refl
  stomp_total-significant _ a s t h = rw (t, record_stomp) refl

  pub stomp_total-record_stomp :
      (c : StompCounter) (a : StompAccumulator R I) (s : StompSample)
      → stomp_total c a < u64_mod
      → stomp_total c (record_stomp R I a s) ≡ add64 (stomp_total c a) (of_stomp c s)
  unfolding record_stomp
  stomp_total-record_stomp c a s h = elim (Bool-cases (stomp_is_significant s)) [
    | inl t ↦ stomp_total-significant c a s t h
    | inr t ↦ rw (t, record_stomp) (omega (arith, insignificant_stomp c s t))
  ]

  unfoldable pub db_total : DbCounter → DbAccumulator R I → ℕ
  db_total rows a = a.stats.rows_total
  db_total db_errors a = a.stats.errors_total

  insignificant_db : (c : DbCounter) (s : DbSample) → db_is_significant s ≡ false → of_db c s ≡ 0
  unfolding db_is_significant of_db
  insignificant_db rows s h = ground arith
  insignificant_db _ s h = ground arith

  db_total-significant :
      (c : DbCounter) (a : DbAccumulator R I) (s : DbSample)
      → db_is_significant s ≡ true
      → db_total c a < u64_mod
      → db_total c (record_db R I a s) ≡ add64 (db_total c a) (of_db c s)
  unfolding record_db db_total of_db
  db_total-significant rows a s t h = rw (t, record_db) refl
  db_total-significant _ a s t h = rw (t, record_db) refl

  pub db_total-record_db :
      (c : DbCounter) (a : DbAccumulator R I) (s : DbSample)
      → db_total c a < u64_mod
      → db_total c (record_db R I a s) ≡ add64 (db_total c a) (of_db c s)
  unfolding record_db
  db_total-record_db c a s h = elim (Bool-cases (db_is_significant s)) [
    | inl t ↦ db_total-significant c a s t h
    | inr t ↦ rw (t, record_db) (omega (arith, insignificant_db c s t))
  ]

  unfoldable pub graphql_ws_total : GraphqlWsCounter → GraphqlWsAccumulator R I → ℕ
  graphql_ws_total subscriptions a = a.stats.operations_total
  graphql_ws_total messages a = a.stats.messages_total
  graphql_ws_total subscription_errors a = a.stats.errors_total

  pub graphql_ws_total-record_graphql_ws :
      (c : GraphqlWsCounter) (a : GraphqlWsAccumulator R I) (s : GraphqlWsSample)
      → graphql_ws_total c a < u64_mod
      → graphql_ws_total c (record_graphql_ws R I a s)
        ≡ add64 (graphql_ws_total c a) (of_graphql_ws c s)
  unfolding record_graphql_ws graphql_ws_total of_graphql_ws add_some count_some
  graphql_ws_total-record_graphql_ws subscriptions a s h = ground arith
  graphql_ws_total-record_graphql_ws _ a s h = ground arith
