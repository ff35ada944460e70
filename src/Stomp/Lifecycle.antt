-- ===== src/Stomp/Lifecycle.antt =====
-- The life of a session over the iterations of src/protocols/stomp.rs: when it is connected, and
-- how often it has connected again.
use strobengine.Prelude.{
  ℕ, ◌+◌, ◌≤◌, ◌≡◌, refl, sym, subst, ◌∙◌, ap, ◌⊎◌, inl, inr, Bool, true, false, Option, none, some,
  arith, if◌then◌else◌,
}
use strobengine.Metrics.Samples.{is_some}
use strobengine.Stomp.Frame.{encode}
use strobengine.Stomp.Decoder.{Decoder, new}
use strobengine.Stomp.Connection.{Stream, rejected, succeeds, fails}
use strobengine.Stomp.Session.{
  StompSession, reset_session, Dial, dialled, dial_elapsed, dial_refused, Attempt, ◌then_do◌,
  greeted, write_bytes, read_frames, connect_arm, connect_frame, connect, ensure_session_connected,
}
use strobengine.Stomp.Engine.{reconnects_of}
use strobengine.Stomp.Attempts.{
  Leaves, then_do-Leaves, Leaves-map, Touches, write_bytes-Uses, read_frames-Uses,
}

-- A connected session: its instants agree with its flags.
pub record Live (s : StompSession) : Type 0 where
  pub is_connected : s.connected ≡ true
  pub was_connected : s.ever_connected ≡ true
  pub has_stream : is_some s.stream ≡ true
  pub subscribed_since : is_some s.subscribed_at ≡ s.subscribed
  pub heard_since : is_some s.last_message_at ≡ s.saw_first_message

-- A session is as after a reset, or connected.
abbrev pub Sound : StompSession → Type 0
Sound s = (s ≡ reset_session s) ⊎ Live s

abbrev pub ever : StompSession → ℕ
ever s = if s.ever_connected then 1 else 0

-- Of `n` connections each is a reconnect, or the first.
abbrev pub Counts : ℕ → StompSession → StompSession → Type 0
Counts n s t = (reconnects_of t + ever t ≡ n + ever s) × (reconnects_of t ≤ ever t)

abbrev pub Both : ℕ → StompSession → StompSession → Type 0
Both n s t = Live t × Counts n s t

touched-Both : (n : ℕ) (s t u : StompSession) → Touches t u → Both n s t → Both n s u
touched-Both n s t u (o, d, i, e) (l, c) = rw e (
  record {
    is_connected = l.is_connected;
    was_connected = l.was_connected;
    has_stream = i ∙ l.has_stream;
    subscribed_since = l.subscribed_since;
    heard_since = l.heard_since;
  },
  c,
)

-- The connections that `ensure_connected` makes.
abbrev pub opened : Dial → StompSession → ℕ
opened dial s = elim (ensure_session_connected dial s).0 [
  | succeeds _ ↦ (if s.connected then 0 else 1)
  | fails _ ↦ 0
]

-- A reset session with a socket.
abbrev WithSocket : StompSession → StompSession → Type 0
WithSocket s u = (o : Stream) × (d : Decoder) × (u ≡ record s { stream = some o; decoder = d })

abbrev with_socket : Option Stream → Decoder → StompSession → StompSession
with_socket o d v = record v { stream = o; decoder = d }

touched-WithSocket : (s t u : StompSession) → WithSocket s t → Touches t u → WithSocket s u
touched-WithSocket s t u (o, d, e) (none, d', i, q) =
    let absurd : false ≡ true = i ∙ ap (λ v. is_some v.stream) e in cc
touched-WithSocket s t u (o, d, e) (some p, d', i, q) = (p, d', q ∙ ap (with_socket (some p) d') e)

socket-Counts :
    (s t : StompSession) → s.reconnected_this_iteration ≡ false → WithSocket s t → Counts 0 s t
socket-Counts s t r (o, d, e) = rw (e, r) (refl, omega arith)

pub idle_fields :
    (s : StompSession)
    → s ≡ reset_session s
    → (s.connected ≡ false)
      × (is_some s.subscribed_at ≡ s.subscribed)
      × (is_some s.last_message_at ≡ s.saw_first_message)
unfolding reset_session
idle_fields s i =
    subst
      (λ v.
        (v.connected ≡ false)
        × (is_some v.subscribed_at ≡ v.subscribed)
        × (is_some v.last_message_at ≡ v.saw_first_message))
      (sym i) (refl, refl, refl)

greeted-Leaves :
    (s : StompSession) (m : Attempt Unit)
    → s ≡ reset_session s
    → s.reconnected_this_iteration ≡ false
    → Leaves (λ _. WithSocket s) (WithSocket s) m
    → Leaves (λ _. Both 1 s) (Counts 0 s) (greeted m)
unfolding reset_session
greeted-Leaves s (succeeds a, u) i r (o, d, q) =
    let f = idle_fields s i in
    rw q (
      record {
        is_connected = refl;
        was_connected = refl;
        has_stream = refl;
        subscribed_since = f.1;
        heard_since = f.2;
      },
      ground (arith, r),
    )
greeted-Leaves s (fails (rejected msg), u) i r (o, d, q) = rw q (ground (arith, r))
greeted-Leaves s (fails e', u) i r (o, d, q) = rw q (ground (arith, r))

connect-Leaves :
    (dial : Dial) (s : StompSession)
    → s ≡ reset_session s
    → s.reconnected_this_iteration ≡ false
    → Leaves (λ _. Both 1 s) (Counts 0 s) (connect dial s)
unfolding connect
connect-Leaves dial_elapsed s i r = ground (arith, r)
connect-Leaves dial_refused s i r = ground (arith, r)
connect-Leaves (dialled stream) s i r =
    let fresh : StompSession = record s { stream = some stream; decoder = new } in
    let open_socket : WithSocket s fresh = (stream, new, refl) in
    then_do-Leaves (λ _. WithSocket s) (λ _. Both 1 s) (Counts 0 s)
      (write_bytes (encode connect_frame) fresh) _
      (Leaves-map (λ _. Touches fresh) (λ _. WithSocket s) (Touches fresh) (Counts 0 s)
        (write_bytes (encode connect_frame) fresh)
        (λ _ u h. touched-WithSocket s fresh u open_socket h)
        (λ u h. socket-Counts s u r (touched-WithSocket s fresh u open_socket h))
        (write_bytes-Uses (encode connect_frame) fresh))
      (λ a t h. greeted-Leaves s (read_frames connect_arm t) i r (
        Leaves-map (λ _. Touches t) (λ _. WithSocket s) (Touches t) (WithSocket s)
          (read_frames connect_arm t) (λ _ u k. touched-WithSocket s t u h k)
          (λ u k. touched-WithSocket s t u h k) (read_frames-Uses connect_arm t)))

connected_is_alive : (s : StompSession) → Sound s → s.connected ≡ true → Live s
connected_is_alive s (inl i) e = let absurd : false ≡ true = sym (idle_fields s i).0 ∙ e in cc
connected_is_alive s (inr l) e = l

idle_of : (s : StompSession) → Sound s → s.connected ≡ false → s ≡ reset_session s
idle_of s (inl i) e = i
idle_of s (inr l) e = let absurd : true ≡ false = sym l.is_connected ∙ e in cc

connected_Counts : (s : StompSession) → Live s → s.reconnected_this_iteration ≡ false → Counts 0 s s
connected_Counts s l r = ground (arith, r)

pub ensure_session_connected-Leaves :
    (dial : Dial) (s : StompSession)
    → Sound s
    → s.reconnected_this_iteration ≡ false
    → Leaves
        (λ _. Both (if s.connected then 0 else 1) s)
        (Counts 0 s)
        (ensure_session_connected dial s)
unfolding ensure_session_connected
ensure_session_connected-Leaves dial s h r = by_flag s.connected refl
  where
    by_flag :
        (b : Bool)
        → s.connected ≡ b
        → Leaves
            (λ _. Both (if b then 0 else 1) s)
            (Counts 0 s)
            (if b then (succeeds tt, s) else connect dial s)
    by_flag true e = (connected_is_alive s h e, connected_Counts s (connected_is_alive s h e) r)
    by_flag false e = connect-Leaves dial s (idle_of s h e) r

-- The steps after the connecting leave the session live, whatever they return.
pub continued :
    {A : Type 0} (Q : ℕ → A → StompSession → Type 0) (n : ℕ) (s : StompSession) (m : Attempt Unit)
    (f : Unit → StompSession → Attempt A)
    → Leaves (λ _. Both n s) (Counts 0 s) m
    → ((t : StompSession) → Both n s t → Leaves (Q n) (Counts n s) (f tt t))
    → let k : ℕ = elim m.0 [ succeeds _ ↦ n | fails _ ↦ 0 ] in
      Leaves (Q k) (Counts k s) (m then_do f)
continued Q n s (succeeds a, t) f h k = k t h
continued Q n s (fails e, t) f h k = h

pub used :
    {A : Type 0} (n : ℕ) (s t : StompSession) (m : Attempt A)
    → Both n s t
    → Leaves (λ _. Touches t) (Touches t) m
    → Leaves (λ _. Both n s) (Counts n s) m
used n s t m b h =
    Leaves-map (λ _. Touches t) (λ _. Both n s) (Touches t) (Counts n s) m
      (λ _ u k. touched-Both n s t u k b) (λ u k. (touched-Both n s t u k b).1) h
