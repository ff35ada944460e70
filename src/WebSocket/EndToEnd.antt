-- ===== src/WebSocket/EndToEnd.antt =====
-- A publisher's payload at a subscriber, src/protocols/websocket.rs.
use strobengine.Prelude.{ℕ, ◌-◌, ◌/◌, ◌^◌, ◌<◌, ◌≡◌, refl, false, List, ◌∷◌, Option, none, some}
use strobengine.Text.Utf8.{Bytes}
use strobengine.Chaos.{ChaosFault}
use strobengine.Metrics.Pubsub.{create_pubsub_payload, parse-create_pubsub_payload}
use strobengine.Metrics.Request.{builder, status, bytes, socket_reused, e2e_latency_us, with_sample}
use strobengine.WebSocket.{Arrival, arrives, binary, is_corrupted, is_dropped}
use strobengine.WebSocket.Subscriber.{
  SubscriberSession, receive, e2e_of, finish_receive, execute_subscriber_iteration,
}
use strobengine.WebSocket.Publisher.{PublisherSession, Publishing, published_payload}

e2e_of-create_pubsub_payload :
    (now_ns made_ns : ℕ) (user_payload : Bytes)
    → made_ns < 2 ^ 128
    → e2e_of now_ns (create_pubsub_payload made_ns user_payload) ≡ some ((now_ns - made_ns) / 1000)
unfolding e2e_of
e2e_of-create_pubsub_payload now_ns made_ns user_payload h =
    rw (parse-create_pubsub_payload made_ns user_payload h, e2e_of) refl

-- A subscriber that reads what an uncorrupted publisher iteration sent reports the microseconds
-- from the making of the payload to the reading, for a wall clock below 2 ^ 128.
pub e2e_published :
    (publisher : PublisherSession) (p : Publishing) (subscriber : SubscriberSession)
    (rest : List Arrival) (fault : Option ChaosFault) (latency now_ns : ℕ)
    → is_corrupted p.fault ≡ false
    → p.made_ns < 2 ^ 128
    → is_dropped fault ≡ false
    → subscriber.read ≡ some (arrives (binary (published_payload publisher p)) ∷ rest)
    → (execute_subscriber_iteration subscriber none fault latency
        now_ns).1.connection.e2e_latency_us
      ≡ some ((now_ns - p.made_ns) / 1000)
unfolding execute_subscriber_iteration receive finish_receive published_payload with_sample
    socket_reused e2e_latency_us bytes status builder
e2e_published publisher p subscriber rest fault latency now_ns c b d r =
    rw (r, d)
      (rw (c, published_payload)
        (e2e_of-create_pubsub_payload now_ns p.made_ns publisher.user_payload b))
