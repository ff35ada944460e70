-- ===== src/Grpc/Complete.antt =====
-- `drive_send` of src/protocols/grpc_h2.rs: what has been sent at each end of it, and that enough
-- credit ends it.
use strobengine.Prelude.{
  ℕ, zero, suc, ◌+◌, ◌-◌, ◌<◌, ◌≤◌, ◌≡◌, refl, ◌∙◌, ap, inl, inr, Bool, true, false, List, [], ◌∷◌,
  ◌++◌, append-nil, append_assoc, arith, leb, ◌==◌, min, length, take, drop, All, length-drop,
  Bool-cases,
}
use strobengine.Text.Utf8.{Bytes}
use strobengine.Grpc.Sending.{
  Credit, granted, revoked, Flow, no_flow, Driven, finished, aborted, awaits_credit, Chunks,
  stall_counted, credit_noted, send_rest, drive_send, sent_bytes, Delivers,
}

take-drop : (n : ℕ) (xs : Bytes) → take n xs ++ drop n xs ≡ xs
take-drop zero xs = refl
take-drop (suc n) [] = refl
take-drop (suc n) (x ∷ xs) = ap (◌∷◌ x) (take-drop n xs)

take_all : (n : ℕ) (xs : Bytes) → length xs ≤ n → take n xs ≡ xs
take_all zero [] h = refl
take_all zero (x ∷ xs) h = elim h [ ]
take_all (suc n) [] h = refl
take_all (suc n) (x ∷ xs) h = ap (◌∷◌ x) (take_all n xs (omega (arith, h)))

le_of : (a b : ℕ) → leb a b ≡ true → a ≤ b
le_of a b h = ground arith

-- One more chunk before the others.
chunk_first :
    (size : ℕ) (rest : Bytes) (r : Driven × Chunks)
    → Delivers (drop size rest) r
    → Delivers rest (r.0, (take size rest, false) ∷ r.1)
unfolding sent_bytes
chunk_first size rest (finished flow, (c ∷ cs)) (e, k) =
    (ap (◌++◌ (take size rest)) e ∙ take-drop size rest, (refl, k))
chunk_first size rest (finished flow, []) (e, k) = elim k [ ]
chunk_first size rest (aborted, cs) ((left, e), k) = (
  (
    left,
    append_assoc (take size rest) (sent_bytes cs) left
        ∙ ap (◌++◌ (take size rest)) e
        ∙ take-drop size rest,
  ),
  (refl, k),
)
chunk_first size rest (awaits_credit, cs) ((left, e), k) = (
  (
    left,
    append_assoc (take size rest) (sent_bytes cs) left
        ∙ ap (◌++◌ (take size rest)) e
        ∙ take-drop size rest,
  ),
  (refl, k),
)

send_rest-Delivers :
    (credits : List Credit) (rest : Bytes) (started : Bool) (flow : Flow)
    → Delivers rest (send_rest credits rest started flow)
unfolding send_rest sent_bytes
send_rest-Delivers [] rest started flow = ((rest, refl), tt)
send_rest-Delivers (revoked ∷ credits) rest started flow = ((rest, refl), tt)
send_rest-Delivers (granted n stalled waited accepts ∷ credits) rest started flow =
    let counted = stall_counted flow started stalled waited in
    let size = min n (length rest) in
    elim (Bool-cases (n == 0)) [
      | inl z ↦ rw (z, send_rest) (send_rest-Delivers credits rest started counted)
      | inr z ↦ elim (Bool-cases accepts) [
        | inr a ↦ rw (z, a, send_rest) ((rest, refl), tt)
        | inl a ↦ elim (Bool-cases (leb (length rest) size)) [
          | inl l ↦
              rw (z, a, l, send_rest)
                (
                  append-nil (take size rest) ∙ take_all size rest (le_of (length rest) size l),
                  refl,
                )
          | inr l ↦
              rw (z, a, l, send_rest)
                (chunk_first size rest
                  (send_rest credits (drop size rest) true (credit_noted counted n))
                  (send_rest-Delivers credits (drop size rest) true (credit_noted counted n)))
        ]
      ]
    ]

-- Whatever credit the peer gives: where the sending finishes, the chunks are the frame in order and
-- the last of them, and no other, ends the stream; where it does not, they are a part of the frame
-- from its start, and the stream is open.
pub drive_send-Delivers :
    (credits : List Credit) (accepts_empty : Bool) (frame : Bytes)
    → Delivers frame (drive_send credits accepts_empty frame)
unfolding drive_send sent_bytes
drive_send-Delivers credits true [] = (refl, refl)
drive_send-Delivers credits false [] = (([], refl), tt)
drive_send-Delivers credits b (c ∷ frame) = send_rest-Delivers credits (c ∷ frame) false no_flow

-- Credit that is given, with chunks that are taken.
abbrev pub IsGranted : Credit → Type 0
IsGranted (granted n stalled waited accepts) = accepts ≡ true
IsGranted revoked = ⊥

unfoldable pub total_credit : List Credit → ℕ
total_credit [] = 0
total_credit (granted n stalled waited accepts ∷ credits) = n + total_credit credits
total_credit (revoked ∷ credits) = total_credit credits

abbrev pub IsFinished : Driven → Type 0
IsFinished (finished flow) = Unit
IsFinished _ = ⊥

send_rest-IsFinished :
    (credits : List Credit) (rest : Bytes) (started : Bool) (flow : Flow)
    → All IsGranted credits
    → 0 < length rest
    → length rest ≤ total_credit credits
    → IsFinished (send_rest credits rest started flow).0
unfolding send_rest total_credit
send_rest-IsFinished [] rest started flow g p h = elim (none_left (length rest) p h) [ ]
  where
    none_left : (n : ℕ) → 0 < n → n ≤ 0 → ⊥
    none_left n p h = omega arith
send_rest-IsFinished (revoked ∷ credits) rest started flow g p h = elim g.0 [ ]
send_rest-IsFinished (granted n stalled waited accepts ∷ credits) rest started flow g p h =
    let counted = stall_counted flow started stalled waited in
    let size = min n (length rest) in
    elim (Bool-cases (n == 0)) [
      | inl z ↦
          rw (z, send_rest)
            (send_rest-IsFinished credits rest started counted g.1 p
              (nothing n (length rest) (total_credit credits) z h))
      | inr z ↦ elim (Bool-cases (leb (length rest) size)) [
        | inl l ↦ rw (z, g.0, l, send_rest) tt
        | inr l ↦
            let less = part n (length rest) (total_credit credits) (length-drop size rest) l h in
            rw (z, g.0, l, send_rest)
              (send_rest-IsFinished credits (drop size rest) true (credit_noted counted n) g.1
                less.0 less.1)
      ]
    ]
  where
    nothing : (n a b : ℕ) → n == 0 ≡ true → a ≤ n + b → a ≤ b
    nothing n a b z h = ground (arith, z, h)

    part :
        (n a b : ℕ) {d : ℕ}
        → d ≡ a - min n a
        → leb a (min n a) ≡ false
        → a ≤ n + b
        → (0 < d) × (d ≤ b)
    part n a b e l h = ground (arith, e, l, h)

-- If the peer gives credit for the whole frame in all, in grants of any size, of which some may be
-- empty, and takes every chunk, the sending finishes.
pub drive_send-IsFinished :
    (credits : List Credit) (c : ℕ) (frame : Bytes)
    → All IsGranted credits
    → length (c ∷ frame) ≤ total_credit credits
    → IsFinished (drive_send credits true (c ∷ frame)).0
unfolding drive_send
drive_send-IsFinished credits c frame g h =
    send_rest-IsFinished credits (c ∷ frame) false no_flow g (omega arith) h
