-- ===== src/WebSocket/Persistent.antt =====
-- The persistent sessions and the reads of src/protocols/websocket.rs.
use strobengine.Prelude.{
  ℕ, ◌<◌, ◌≤◌, ◌≡◌, refl, List, [], ◌∷◌, Option, none, some, length, if◌then◌else◌,
}
use strobengine.Prelude.Words.{add64}
use strobengine.WebSocket.{
  text, binary, ping, pong, frame, close, Arrival, arrives, fails, elapses, read_from,
  read_with_timeout,
}
use strobengine.WebSocket.Stateless.{is_pong}
use strobengine.WebSocket.Exchanges.{PersistentWsSession, Exchange, execute_persistent_iteration}

unfoldable pub converse : PersistentWsSession → List Exchange → PersistentWsSession
converse s [] = s
converse s (x ∷ xs) = converse (execute_persistent_iteration s x).0 xs

abbrev IsWithin : ℕ → PersistentWsSession → Type 0
IsWithin max s = (s.max_messages ≡ some max) × (s.messages_sent ≤ max)

-- A session that may send one more message on its connection.
abbrev HasRoom : ℕ → Option (PersistentWsSession × ℕ) → Type 0
HasRoom max none = Unit
HasRoom max (some p) = (p.0.max_messages ≡ some max) × (p.0.messages_sent < max)

pongs_from :
    (bytes pings : ℕ) (arrivals : List Arrival)
    → (read_from bytes pings 0 arrivals).pongs_received
      ≡ (if is_pong (read_from bytes pings 0 arrivals).status then 1 else 0)
unfolding read_from
pongs_from bytes pings [] = refl
pongs_from bytes pings (arrives (text t) ∷ rest) = refl
pongs_from bytes pings (arrives (binary b) ∷ rest) = refl
pongs_from bytes pings (arrives (ping p) ∷ rest) =
    pongs_from (add64 bytes (length p)) (add64 pings 1) rest
pongs_from bytes pings (arrives (pong p) ∷ rest) = refl
pongs_from bytes pings (arrives (frame f) ∷ rest) = pongs_from bytes pings rest
pongs_from bytes pings (arrives close ∷ rest) = refl
pongs_from bytes pings (fails ∷ rest) = refl
pongs_from bytes pings (elapses ∷ rest) = refl

-- A bounded read counts one pong if a pong ends it, and otherwise none.
pub pongs_counted :
    (arrivals : List Arrival)
    → (read_with_timeout arrivals).pongs_received
      ≡ (if is_pong (read_with_timeout arrivals).status then 1 else 0)
unfolding read_with_timeout
pongs_counted arrivals = pongs_from 0 0 arrivals
