-- ===== src/Stomp/Status.antt =====
-- What each iteration of src/protocols/stomp.rs leaves of its session, by its metric.
use strobengine.Prelude.{
  ℕ, ◌+◌, ◌≤◌, ◌≡◌, refl, ap, inl, inr, Bool, true, false, Option, none, some, arith, if◌then◌else◌,
}
use strobengine.Prelude.Words.{add64}
use strobengine.Chaos.{ChaosFault, connection_drop}
use strobengine.Metrics.Samples.{StompSample}
use strobengine.Metrics.Samples
use strobengine.Metrics.Request.{RequestMetric, builder, status, bytes, with_sample}
use strobengine.Stomp.Frame.{encode}
use strobengine.Stomp.Connection.{succeeds, fails, unwound, waiting}
use strobengine.Stomp.Session.{
  StompSession, reset_session, Attempt, ◌then_do◌, write_bytes, read_frames,
  ensure_session_connected, subscribe_frame, ensure_subscribed, message_arm,
}
use strobengine.Stomp.Engine.{
  Iteration, reconnects_of, send_frame, error_metric, try_produce, try_consume, conclude, begun,
  StompMode, produces, consumes, run_iteration, produce, consume, next_seq, receipt_id,
  await_receipt, acknowledge, attempt, note_message,
}
use strobengine.Stomp.Attempts.{
  Leaves, then_do-Leaves, write_bytes-Uses, read_frames-Uses, await_receipt-Uses, acknowledge-Uses,
}
use strobengine.Stomp.Lifecycle.{
  Sound, ever, Counts, Both, opened, ensure_session_connected-Leaves, continued, used,
}

ensure_subscribed-Leaves :
    (now n : ℕ) (s t : StompSession)
    → Both n s t
    → Leaves (λ _. Both n s) (Counts n s) (ensure_subscribed now t)
unfolding ensure_subscribed
ensure_subscribed-Leaves now n s t b = by_flag t.subscribed
  where
    by_flag :
        (f : Bool)
        → Leaves
            (λ _. Both n s)
            (Counts n s)
            (if f
              then (succeeds tt, t)
              else (write_bytes (encode (subscribe_frame t)) t then_do (λ _ s'. (
                succeeds tt,
                record s' {
                  subscribed = true;
                  subscribed_at = some now;
                  last_message_at = none;
                  saw_first_message = false;
                },
              ))))
    by_flag true = b
    by_flag false =
        then_do-Leaves (λ _. Both n s) (λ _. Both n s) (Counts n s)
          (write_bytes (encode (subscribe_frame t)) t) _
          (used n s t _ b (write_bytes-Uses (encode (subscribe_frame t)) t))
          (λ a u h. (
            record {
              is_connected = h.0.is_connected;
              was_connected = h.0.was_connected;
              has_stream = h.0.has_stream;
              subscribed_since = refl;
              heard_since = refl;
            },
            h.1,
          ))

-- The session of a sample's success, whose reconnects the sample carries.
abbrev Sampled : ℕ → StompSession → StompSample → StompSession → Type 0
Sampled n s sample t = Both n s t × (sample.reconnects ≡ reconnects_of t)

counted-Both : (n : ℕ) (s t : StompSession) → Both n s t → Both n s (next_seq t)
counted-Both n s t b = by_flag t.receipt
  where
    by_flag :
        (f : Bool) → Both n s (if f then record t { receipt_seq = add64 t.receipt_seq 1 } else t)
    by_flag true = (
      record {
        is_connected = b.0.is_connected;
        was_connected = b.0.was_connected;
        has_stream = b.0.has_stream;
        subscribed_since = b.0.subscribed_since;
        heard_since = b.0.heard_since;
      },
      b.1,
    )
    by_flag false = b

abbrev Ends : Iteration → StompSession → Attempt StompSample → Type 0
Ends x s m = Leaves (Sampled (opened x.dial s) s) (Counts (opened x.dial s) s) m

try_produce-Ends :
    (x : Iteration) (s : StompSession)
    → Sound s
    → s.reconnected_this_iteration ≡ false
    → Ends x s (try_produce x s)
unfolding try_produce
try_produce-Ends x s h r =
    let n : ℕ = if s.connected then 0 else 1 in
    continued (λ k. Sampled k s) n s (ensure_session_connected x.dial s) _
      (ensure_session_connected-Leaves x.dial s h r)
      (λ t b.
        let counted = next_seq t in
        let sent = encode (send_frame counted x.fault) in
        let c = counted-Both n s t b in
        then_do-Leaves (λ _. Both n s) (Sampled n s) (Counts n s) (write_bytes sent counted) _
          (used n s counted _ c (write_bytes-Uses sent counted))
          (λ _ u k.
            then_do-Leaves (λ _. Both n s) (Sampled n s) (Counts n s)
              (await_receipt (receipt_id counted) u) _
              (used n s u _ k (await_receipt-Uses (receipt_id counted) u)) (λ _ v l. (l, refl))))

heard-Both : (now n : ℕ) (s t : StompSession) → Both n s t → Both n s (note_message now t)
heard-Both now n s t b = (
  record {
    is_connected = b.0.is_connected;
    was_connected = b.0.was_connected;
    has_stream = b.0.has_stream;
    subscribed_since = b.0.subscribed_since;
    heard_since = refl;
  },
  b.1,
)

try_consume-Ends :
    (x : Iteration) (s : StompSession)
    → Sound s
    → s.reconnected_this_iteration ≡ false
    → Ends x s (try_consume x s)
unfolding try_consume
try_consume-Ends x s h r =
    let n : ℕ = if s.connected then 0 else 1 in
    continued (λ k. Sampled k s) n s (ensure_session_connected x.dial s) _
      (ensure_session_connected-Leaves x.dial s h r)
      (λ t b.
        then_do-Leaves (λ _. Both n s) (Sampled n s) (Counts n s)
          (ensure_subscribed x.subscribed_now t) _
          (ensure_subscribed-Leaves x.subscribed_now n s t b)
          (λ _ u k.
            then_do-Leaves (λ _. Both n s) (Sampled n s) (Counts n s) (read_frames message_arm u) _
              (used n s u _ k (read_frames-Uses message_arm u))
              (λ message v l.
                let noted = note_message x.message_now v in
                then_do-Leaves (λ _. Both n s) (Sampled n s) (Counts n s)
                  (acknowledge message.1 noted) _
                  (used n s noted _ (heard-Both x.message_now n s v l)
                    (acknowledge-Uses message.1 noted))
                  (λ _ w z. (z, refl)))))

-- The reconnects that a metric carries.
abbrev pub reconnects_in : RequestMetric → ℕ
reconnects_in m = elim m.protocol [ some (Samples.stomp s) ↦ s.reconnects | _ ↦ 0 ]

-- The connections that an iteration makes.
abbrev pub handshakes_of : Iteration → StompSession → ℕ
handshakes_of x s = elim x.fault [ some connection_drop ↦ 0 | _ ↦ opened x.dial (begun s) ]

-- What a metric says of the session that its iteration leaves.
abbrev pub Agrees : ℕ → StompSession → Option (StompSession × RequestMetric) → Type 0
Agrees n s none = Unit
Agrees n s (some (t, m)) =
    Sound t
    × (m.status_code ≡ (if t.connected then 200 else 0))
    × (reconnects_in m + ever t ≡ n + ever s)
    × (reconnects_in m ≤ ever t)

conclude-Agrees :
    (n : ℕ) (x : Iteration) (s : StompSession) (m : Attempt StompSample)
    → Leaves (Sampled n s) (Counts n s) m
    → Agrees n s (conclude x m)
unfolding conclude error_metric with_sample status bytes builder reset_session
conclude-Agrees n x s (succeeds sample, t) h =
    (inr h.0.0, rw h.0.0.is_connected refl, rw h.1 h.0.1.0, rw h.1 h.0.1.1)
conclude-Agrees n x s (fails unwound, t) h = tt
conclude-Agrees n x s (fails waiting, t) h = tt
conclude-Agrees n x s (fails e, t) h = (inl refl, refl, h.0, h.1)

begun-Sound : (s : StompSession) → Sound s → Sound (begun s)
unfolding reset_session
begun-Sound s (inl i) = inl (ap begun i)
begun-Sound s (inr l) = inr (record {
  is_connected = l.is_connected;
  was_connected = l.was_connected;
  has_stream = l.has_stream;
  subscribed_since = l.subscribed_since;
  heard_since = l.heard_since;
})

attempt-Ends :
    (mode : StompMode) (x : Iteration) (s : StompSession)
    → Sound s
    → s.reconnected_this_iteration ≡ false
    → Ends x s (attempt mode x s)
attempt-Ends produces x s h r = try_produce-Ends x s h r
attempt-Ends consumes x s h r = try_consume-Ends x s h r

-- An iteration that is not dropped.
attempted-Agrees :
    (mode : StompMode) (x : Iteration) (s : StompSession)
    → Sound s
    → Agrees (opened x.dial (begun s)) s (conclude x (attempt mode x (begun s)))
attempted-Agrees mode x s h =
    conclude-Agrees (opened x.dial (begun s)) x (begun s) (attempt mode x (begun s))
      (attempt-Ends mode x (begun s) (begun-Sound s h) refl)

pub run_iteration-Agrees :
    (mode : StompMode) (x : Iteration) (s : StompSession)
    → Sound s
    → Agrees (handshakes_of x s) s (run_iteration mode x s)
unfolding run_iteration produce consume reset_session builder
run_iteration-Agrees mode x s h = by_fault mode x.fault
  where
    by_fault :
        (mode : StompMode) (f : Option ChaosFault)
        → Agrees
            (elim f [ some connection_drop ↦ 0 | _ ↦ opened x.dial (begun s) ])
            s
            (elim f [
              | some connection_drop ↦ some (reset_session s, builder 0 (some connection_drop))
              | _ ↦ elim mode [ produces ↦ produce x (begun s) | consumes ↦ consume x (begun s) ]
            ])
    by_fault mode (some connection_drop) = (inl refl, refl, refl, omega arith)
    by_fault produces none = attempted-Agrees produces x s h
    by_fault consumes none = attempted-Agrees consumes x s h
    by_fault produces (some _) = attempted-Agrees produces x s h
    by_fault consumes (some _) = attempted-Agrees consumes x s h
