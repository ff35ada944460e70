-- ===== src/Stomp/Reconnects.antt =====
-- Runs of one session over many iterations, as the worker of src/protocols/stomp.rs has them.
use strobengine.Prelude.{
  ℕ, ◌+◌, ◌-◌, ◌≡◌, refl, inl, List, [], ◌∷◌, Option, none, some, arith, All, if◌then◌else◌,
}
use strobengine.Metrics.Request.{RequestMetric}
use strobengine.Stomp.Session.{StompSession}
use strobengine.Stomp.Session
use strobengine.Stomp.Engine.{Iteration, StompMode, StompEngine, new_session, run_iteration}
use strobengine.Stomp.Lifecycle.{Sound, ever}
use strobengine.Stomp.Status.{reconnects_in, handshakes_of, Agrees, run_iteration-Agrees}

-- The metrics of the iterations with the sessions that they leave, up to a panic or an iteration that
-- does not return.
unfoldable pub serve :
    StompMode → StompSession → List Iteration → List (RequestMetric × StompSession)
serve mode s [] = []
serve mode s (x ∷ xs) = elim (run_iteration mode x s) [
  | none ↦ []
  | some (t, m) ↦ (m, t) ∷ serve mode t xs
]

-- The connections that those iterations make.
unfoldable pub handshakes : StompMode → StompSession → List Iteration → ℕ
handshakes mode s [] = 0
handshakes mode s (x ∷ xs) = elim (run_iteration mode x s) [
  | none ↦ 0
  | some (t, m) ↦ handshakes_of x s + handshakes mode t xs
]

unfoldable pub reconnects_reported : List (RequestMetric × StompSession) → ℕ
reconnects_reported [] = 0
reconnects_reported ((m, t) ∷ rest) = reconnects_in m + reconnects_reported rest

abbrev pub StatusAgrees : RequestMetric × StompSession → Type 0
StatusAgrees (m, t) = Sound t × (m.status_code ≡ (if t.connected then 200 else 0))

served :
    (mode : StompMode) (s : StompSession) (xs : List Iteration)
    → Sound s
    → All StatusAgrees (serve mode s xs)
unfolding serve
served mode s [] h = tt
served mode s (x ∷ xs) h =
    after (run_iteration mode x s) (run_iteration-Agrees mode x s h) (λ t. served mode t xs)
  where
    after :
        (o : Option (StompSession × RequestMetric))
        → Agrees (handshakes_of x s) s o
        → ((t : StompSession) → Sound t → All StatusAgrees (serve mode t xs))
        → All StatusAgrees (elim o [ none ↦ [] | some (t, m) ↦ (m, t) ∷ serve mode t xs ])
    after none a k = tt
    after (some (t, m)) (sound, code, count, few) k = ((sound, code), k t sound)

-- Whatever the broker and the network do, each metric of a new session's iterations has status 200
-- exactly when the iteration leaves the session connected, and otherwise status 0, and a session
-- that is not connected is as after a reset.
pub status_connected :
    (e : StompEngine) (mode : StompMode) (xs : List Iteration)
    → All StatusAgrees (serve mode (new_session e) xs)
unfolding new_session Session.reset_session
status_connected e mode xs = served mode (new_session e) xs (inl refl)

-- The equation of `reconnects_handshakes` on any session.
abbrev Totals : StompMode → StompSession → List Iteration → Type 0
Totals mode s xs = reconnects_reported (serve mode s xs) ≡ handshakes mode s xs + ever s - 1

handshakes-reconnects :
    (mode : StompMode) (s : StompSession) (xs : List Iteration) → Sound s → Totals mode s xs
unfolding serve handshakes reconnects_reported
handshakes-reconnects mode s [] h = ground arith
handshakes-reconnects mode s (x ∷ xs) h =
    after (run_iteration mode x s) (run_iteration-Agrees mode x s h)
      (λ t. handshakes-reconnects mode t xs)
  where
    after :
        (o : Option (StompSession × RequestMetric))
        → Agrees (handshakes_of x s) s o
        → ((t : StompSession) → Sound t → Totals mode t xs)
        → reconnects_reported (elim o [ none ↦ [] | some (t, m) ↦ (m, t) ∷ serve mode t xs ])
          ≡ elim o as (λ _. ℕ) [ none ↦ 0 | some (t, m) ↦ handshakes_of x s + handshakes mode t xs ]
            + ever s
            - 1
    after none a k = ground arith
    after (some (t, m)) (sound, code, count, few) k = omega (arith, count, few, k t sound)

-- Over a run of a new session the metrics report every connection but the first as a reconnect,
-- those of failed iterations included.
pub reconnects_handshakes :
    (e : StompEngine) (mode : StompMode) (xs : List Iteration)
    → reconnects_reported (serve mode (new_session e) xs) ≡ handshakes mode (new_session e) xs - 1
unfolding new_session Session.reset_session
reconnects_handshakes e mode xs =
    omega (arith, handshakes-reconnects mode (new_session e) xs (inl refl))
