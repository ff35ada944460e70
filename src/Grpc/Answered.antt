-- ===== src/Grpc/Answered.antt =====
-- What an iteration of src/protocols/grpc_h2.rs reports.
use strobengine.Prelude.{
  ℕ, ◌≤◌, ◌<◌, ◌≡◌, refl, subst, ◌⊎◌, inl, inr, Bool, true, false, Option, none, some, arith,
  if◌then◌else◌, not, All, length,
}
use strobengine.Prelude.Words.{u64_mod, add64}
use strobengine.Chaos.{ChaosFault, connection_drop}
use strobengine.Metrics.Request.{
  RequestMetric, builder, status, bytes, connection_latency_us, socket_reused, with_sample,
}
use strobengine.Grpc.Framing.{build_frame, grpc_to_http_status}
use strobengine.Grpc.Sending.{Flow, Driven, finished, aborted, awaits_credit, drive_send}
use strobengine.Grpc.Complete.{IsGranted, IsFinished, total_credit, drive_send-IsFinished}
use strobengine.Grpc.Engine.{
  GrpcH2Engine, Call, payload_bytes_of, get_send, clear_send, guarded, error_of, outcome_of,
  answer_metric, release_after, stream_metric, on_handle, execute_call,
}

-- An error of the transport with status 0, or the answer of the server: its status and length.
abbrev pub Reports : Call → RequestMetric → Type 0
Reports x m =
    (m.status_code ≡ 0)
    ⊎ ((code : ℕ) × (len : ℕ) × (outcome_of x ≡ some (code, len))
        × (m.status_code ≡ grpc_to_http_status code)
        × (m.bytes_received ≡ len))

abbrev pub Reported : Call → ℕ → Option (GrpcH2Engine × RequestMetric) → Type 0
Reported x active none = Unit
Reported x active (some (e, m)) = Reports x m × (e.active ≡ active)

abbrev KeepsActive : GrpcH2Engine → Option (GrpcH2Engine × ℕ × Bool) → Type 0
KeepsActive e none = Unit
KeepsActive e (some (live, conn_us, reused)) = live.active ≡ e.active

abbrev pub AnswersMetric : ℕ → ℕ → Option RequestMetric → Type 0
AnswersMetric code len none = ⊥
AnswersMetric code len (some m) =
    (m.status_code ≡ grpc_to_http_status code) × (m.bytes_received ≡ len)

-- A metric with the answer of the server.
abbrev pub Answers : ℕ → ℕ → Option (GrpcH2Engine × RequestMetric) → Type 0
Answers code len none = ⊥
Answers code len (some (e, m)) = AnswersMetric code len (some m)

module _ (divide : ℕ → ℕ → ℕ) where
  answer_metric-Reports :
      (x : Call) (active conn_us : ℕ) (reused : Bool) (flow : Flow) (o : Option (ℕ × ℕ))
      → outcome_of x ≡ o
      → Reports x (answer_metric divide x active conn_us reused flow o)
  unfolding answer_metric builder status bytes connection_latency_us socket_reused with_sample
  answer_metric-Reports x active conn_us reused flow none e = inl refl
  answer_metric-Reports x active conn_us reused flow (some (code, len)) e =
      inr (code, len, e, refl, refl)

  release-Reported :
      (e : GrpcH2Engine) (x : Call) (active conn_us : ℕ) (reused : Bool) (d : Driven)
      → e.active < u64_mod
      → Reported x e.active
          (release_after (guarded e) (stream_metric divide x active conn_us reused d))
  unfolding stream_metric builder
  release-Reported e x active conn_us reused awaits_credit b = tt
  release-Reported e x active conn_us reused aborted b = (inl refl, omega (arith, b))
  release-Reported e x active conn_us reused (finished flow) b =
      (answer_metric-Reports x active conn_us reused flow (outcome_of x) refl, omega (arith, b))

  on_handle-Reported :
      (e : GrpcH2Engine) (x : Call) (conn_us : ℕ) (reused : Bool)
      → e.active < u64_mod
      → Reported x e.active (on_handle divide e x conn_us reused)
  unfolding on_handle clear_send builder
  on_handle-Reported e x conn_us reused b = by_flags x.ready x.valid x.opens
    where
      by_flags :
          (ready valid opens : Bool)
          → Reported x e.active (
              if not ready
              then some (clear_send e, error_of x)
              else if not valid
              then some (e, error_of x)
              else if not opens
              then some (clear_send e, error_of x)
              else (release_after (guarded e) (
                  stream_metric divide x
                    (add64 e.active 1)
                    conn_us
                    reused
                    (drive_send x.credits true (build_frame (payload_bytes_of e x.fault))).0)))
      by_flags false valid opens = (inl refl, refl)
      by_flags true false opens = (inl refl, refl)
      by_flags true true false = (inl refl, refl)
      by_flags true true true = release-Reported e x _ conn_us reused _ b

  got-Reported :
      (e : GrpcH2Engine) (x : Call) (o : Option (GrpcH2Engine × ℕ × Bool))
      → e.active < u64_mod
      → KeepsActive e o
      → Reported x e.active (elim o [
        | none ↦ some (e, error_of x)
        | some (live, conn_us, reused) ↦ on_handle divide live x conn_us reused
      ])
  unfolding builder
  got-Reported e x none b h = (inl refl, refl)
  got-Reported e x (some (live, conn_us, reused)) b h =
      subst (λ n. Reported x n (on_handle divide live x conn_us reused)) h
        (on_handle-Reported live x conn_us reused (omega (arith, h, b)))

  get_send-active : (e : GrpcH2Engine) (connects : Option ℕ) → KeepsActive e (get_send e connects)
  unfolding get_send
  get_send-active e connects = by_flag e.send connects
    where
      by_flag :
          (b : Bool) (c : Option ℕ)
          → KeepsActive e (
              if b then some (e, 0, true) else elim c [
                | none ↦ none
                | some conn_us ↦ some (record e { send = true }, conn_us, false)
              ])
      by_flag true c = refl
      by_flag false none = tt
      by_flag false (some n) = refl

  -- An iteration that returns reports an error of the transport, with status 0, or the HTTP status
  -- of the code that the server has answered, with the length that it has announced; and the
  -- streams that are counted as in flight are again those from before it.
  pub execute_call-Reported :
      (e : GrpcH2Engine) (x : Call)
      → e.active < u64_mod
      → Reported x e.active (execute_call divide e x)
  unfolding execute_call
  execute_call-Reported e x b = by_fault x.fault
    where
      by_fault :
          (f : Option ChaosFault)
          → Reported x e.active (elim f [
            | some connection_drop ↦ some (e, builder x.latency_micros (some connection_drop))
            | _ ↦ elim (get_send e x.connects) [
              | none ↦ some (e, error_of x)
              | some (live, conn_us, reused) ↦ on_handle divide live x conn_us reused
            ]
          ])
      by_fault (some connection_drop) = unfold builder in (inl refl, refl)
      by_fault none = got-Reported e x (get_send e x.connects) b (get_send-active e x.connects)
      by_fault (some _) = got-Reported e x (get_send e x.connects) b (get_send-active e x.connects)

  driven-AnswersMetric :
      (x : Call) (active conn_us : ℕ) (reused : Bool) (d : Driven) (code len : ℕ)
      → IsFinished d
      → outcome_of x ≡ some (code, len)
      → AnswersMetric code len (stream_metric divide x active conn_us reused d)
  unfolding stream_metric answer_metric builder status bytes connection_latency_us socket_reused
      with_sample
  driven-AnswersMetric x active conn_us reused (finished flow) code len h o = rw o (refl, refl)
  driven-AnswersMetric x active conn_us reused aborted code len h o = elim h [ ]
  driven-AnswersMetric x active conn_us reused awaits_credit code len h o = elim h [ ]

  released-Answers :
      (e : GrpcH2Engine) (o : Option RequestMetric) (code len : ℕ)
      → AnswersMetric code len o
      → Answers code len (release_after e o)
  released-Answers e none code len h = h
  released-Answers e (some m) code len h = h

  -- A call without a fault and with a valid path, on a stored handle that is ready, with a stream that
  -- opens, credit for the framed payload in all and an answer in time, returns with that answer: the
  -- HTTP status of its code, and its length.
  pub execute_call-Answers :
      (e : GrpcH2Engine) (x : Call) (code len : ℕ)
      → x.fault ≡ none
      → e.send ≡ true
      → (x.ready ≡ true) × (x.valid ≡ true) × (x.opens ≡ true)
      → All IsGranted x.credits
      → length (build_frame e.payload) ≤ total_credit x.credits
      → outcome_of x ≡ some (code, len)
      → Answers code len (execute_call divide e x)
  unfolding execute_call get_send on_handle build_frame payload_bytes_of
  execute_call-Answers e x code len f s (r, v, o) g b a =
      simp (f, s, r, v, o, execute_call, get_send, on_handle, payload_bytes_of)
        (released-Answers _ _ code len
          (driven-AnswersMetric x _ 0 true _ code len (drive_send-IsFinished x.credits 0 _ g b) a))
