-- ===== src/WebSocket/Tests.antt =====
-- Runs of the WebSocket engine of src/protocols/websocket.rs.
use strobengine.Prelude.{◌≡◌, refl, true, false, none, some, List, [], ◌∷◌, arith, All}
use strobengine.WebSocket.{
  binary, ping, new, in_flight, message_payload_len, arrives, elapses, is_corrupted, is_dropped,
}
use strobengine.Metrics.Pubsub.{create_pubsub_payload, be_bytes}
use strobengine.WebSocket.Backpressure.{
  SinkEvent, sends, flushes, drive, depths, sent, drive_refines,
}
use strobengine.WebSocket.Exchanges.{Exchange}
use strobengine.WebSocket.Subscriber.{execute_subscriber_iteration}
use strobengine.WebSocket.Publisher.{Publishing, published_payload}
use strobengine.WebSocket.Published.{
  new_publisher, publish_all, payload_bytes, MeasuresPayload, backpressure_is_payload,
}
use strobengine.WebSocket.EndToEnd.{e2e_published}

abbrev sink_events : List SinkEvent
sink_events =
    sends (binary (1 ∷ 2 ∷ 3 ∷ []))
    ∷ flushes false
    ∷ sends (ping (1 ∷ []))
    ∷ flushes true
    ∷ sends (binary (1 ∷ 2 ∷ []))
    ∷ []

drive_refines_example :
    (in_flight (drive (new 3) sink_events) ≡ 2) × ((drive (new 3) sink_events).max_in_flight ≡ 4)
unfolding depths sent message_payload_len
drive_refines_example = drive_refines 3 sink_events (omega arith)

abbrev publishing : Publishing
publishing = record {
  connects = true;
  fault = none;
  made_ns = 5000;
  end_ns = 6000;
  latency_micros = 10;
  ready = true;
  accepts = true;
  drains = true;
}

backpressure_is_payload_example :
    All MeasuresPayload (publish_all 8 (new_publisher (65 ∷ [])) (publishing ∷ publishing ∷ []))
unfolding payload_bytes published_payload is_corrupted create_pubsub_payload be_bytes
backpressure_is_payload_example =
    backpressure_is_payload 8 (65 ∷ []) (publishing ∷ publishing ∷ []) (omega arith)

abbrev exchanges : List Exchange
exchanges =
    record {
      fault = none;
      connection = some (arrives (binary (7 ∷ [])) ∷ arrives (binary (8 ∷ [])) ∷ []);
      connect_micros = 20;
      sends = true;
      latency_micros = 10;
    }
    ∷ record {
      fault = none;
      connection = some (elapses ∷ []);
      connect_micros = 20;
      sends = true;
      latency_micros = 10;
    }
    ∷ []

e2e_published_example :
    (execute_subscriber_iteration
      (record {
        read =
            some (arrives (binary (published_payload (new_publisher (65 ∷ [])) publishing)) ∷ []);
        received_count = 0;
      })
      none
      none
      10
      9000).1.connection.e2e_latency_us
    ≡ some 4
unfolding is_corrupted is_dropped
e2e_published_example =
    e2e_published (new_publisher (65 ∷ [])) publishing
      (record {
        read =
            some (arrives (binary (published_payload (new_publisher (65 ∷ [])) publishing)) ∷ []);
        received_count = 0;
      })
      [] none 10 9000 refl (omega arith) refl refl
