-- ===== src/Grpc/Sending.antt =====
-- `drive_send` of src/protocols/grpc_h2.rs: a frame goes out as the peer's flow control gives
-- credit for it.
use strobengine.Prelude.{
  ℕ, ◌-◌, ◌≡◌, Bool, true, false, not, ◌&&◌, List, [], ◌∷◌, ◌++◌, leb, ◌==◌, if◌then◌else◌, min,
  length, take, drop, is_empty,
}
use strobengine.Prelude.Words.{u64_mod, add64}
use strobengine.Text.Utf8.{Bytes}

-- What `poll_capacity` resolves to: so much credit, whether it was pending before, the wait in
-- microseconds, and whether `send_data` then takes the chunk; or an error or the end.
pub data Credit : Type 0 where
  granted : ℕ → Bool → ℕ → Bool → Credit
  revoked : Credit

-- `(events, stall_us, cap_min, has_cap)`
pub record Flow : Type 0 where
  pub events : ℕ
  pub stall_us : ℕ
  pub cap_min : ℕ
  pub has_cap : Bool

unfoldable pub no_flow : Flow
no_flow = record { events = 0; stall_us = 0; cap_min = u64_mod - 1; has_cap = false }

-- How the sending stands: the result, an error, or the wait for more credit.
pub data Driven : Type 0 where
  finished : Flow → Driven
  aborted awaits_credit : Driven

-- The chunks that are sent, with their end-of-stream flags.
abbrev pub Chunks : Type 0
Chunks = List (Bytes × Bool)

-- A stall is counted once something has been sent.
abbrev pub stall_counted : Flow → Bool → Bool → ℕ → Flow
stall_counted flow started stalled waited =
    if stalled && started
    then record flow { events = add64 flow.events 1; stall_us = add64 flow.stall_us waited }
    else flow

abbrev pub credit_noted : Flow → ℕ → Flow
credit_noted flow n = record flow { cap_min = min flow.cap_min n; has_cap = true }

-- The rounds of the loop: `rest` is the frame from `idx` on, and `started` whether `idx > 0`.
unfoldable pub send_rest : List Credit → Bytes → Bool → Flow → Driven × Chunks
send_rest [] rest started flow = (awaits_credit, [])
send_rest (revoked ∷ credits) rest started flow = (aborted, [])
send_rest (granted n stalled waited accepts ∷ credits) rest started flow =
    let counted = stall_counted flow started stalled waited in
    elim (n == 0) [
      | true ↦ send_rest credits rest started counted
      | false ↦
          let size = min n (length rest) in
          let noted = credit_noted counted n in
          if not accepts then (aborted, []) else elim (leb (length rest) size) [
            | true ↦ (finished noted, (take size rest, true) ∷ [])
            | false ↦
                let (outcome, chunks) = send_rest credits (drop size rest) true noted in
                (outcome, (take size rest, false) ∷ chunks)
          ]
    ]

unfoldable pub drive_send : List Credit → Bool → Bytes → Driven × Chunks
drive_send credits accepts_empty frame =
    if is_empty frame
    then (if accepts_empty
        then (finished (record no_flow { cap_min = 0 }), ([], true) ∷ [])
        else (aborted, []))
    else send_rest credits frame false no_flow

unfoldable pub sent_bytes : Chunks → Bytes
sent_bytes [] = []
sent_bytes ((chunk, last) ∷ chunks) = chunk ++ sent_bytes chunks

-- The end of the stream is on the last chunk and on no other.
abbrev pub Closes : Chunks → Type 0
Closes [] = ⊥
Closes ((chunk, last) ∷ []) = last ≡ true
Closes ((chunk, last) ∷ c ∷ chunks) = (last ≡ false) × Closes (c ∷ chunks)

abbrev pub StaysOpen : Chunks → Type 0
StaysOpen [] = Unit
StaysOpen ((chunk, last) ∷ chunks) = (last ≡ false) × StaysOpen chunks

-- A finished sending has sent the frame and closed the stream; otherwise a part of the frame is
-- sent, and the stream is open.
abbrev pub Delivers : Bytes → Driven × Chunks → Type 0
Delivers frame (finished flow, chunks) = (sent_bytes chunks ≡ frame) × Closes chunks
Delivers frame (_, chunks) =
    ((left : Bytes) × (sent_bytes chunks ++ left ≡ frame)) × StaysOpen chunks
