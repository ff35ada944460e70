-- ===== src/Grpc/Engine.antt =====
-- An iteration of `GrpcH2Engine`, src/protocols/grpc_h2.rs. What the connection gives is an
-- argument: it is of the `h2` crate. An f64 is its bits, of which `divide` gives those of a quotient
-- of two u64.
use strobengine.Prelude.{
  ℕ, Bool, true, false, List, [], ◌∷◌, ◌++◌, Option, none, some, ltb, if◌then◌else◌, not,
}
use strobengine.Prelude.Words.{add64, sub64}
use strobengine.Text.Utf8.{Bytes}
use strobengine.Chaos.{ascii, ChaosFault, corrupted_payload, connection_drop}
use strobengine.Metrics.Samples.{GrpcSample}
use strobengine.Metrics.Samples
use strobengine.Metrics.Request.{
  RequestMetric, builder, status, bytes, connection_latency_us, socket_reused, with_sample,
}
use strobengine.Grpc.Framing.{build_frame, grpc_to_http_status, GrpcResponse, read_response}
use strobengine.Grpc.Sending.{Credit, Flow, Driven, finished, aborted, awaits_credit, drive_send}

-- `send`: whether a handle of the shared connection is stored; `active`: the streams in flight.
pub record GrpcH2Engine : Type 0 where
  pub service : Bytes
  pub method : Bytes
  pub payload : Bytes
  pub send : Bool
  pub active : ℕ

-- What an iteration meets: the drawn fault, the microseconds of a connect or its failure, whether
-- the handle is ready, the headers are valid and a stream opens, the limit on streams, the credit,
-- whether the reading outlasts the deadline, the response, and the latency.
pub record Call : Type 0 where
  pub fault : Option ChaosFault
  pub connects : Option ℕ
  pub ready : Bool
  pub valid : Bool
  pub opens : Bool
  pub max_concurrent : ℕ
  pub credits : List Credit
  pub in_time : Bool
  pub response : Option GrpcResponse
  pub latency_micros : ℕ

-- The `:path`.
unfoldable pub request_path : GrpcH2Engine → Bytes
request_path e = ascii "/" ++ (e.service ++ e.method)

unfoldable pub payload_bytes_of : GrpcH2Engine → Option ChaosFault → Bytes
payload_bytes_of e (some corrupted_payload) = 0xff ∷ 0xfe ∷ 0xbd ∷ 0xef ∷ []
payload_bytes_of e _ = e.payload

-- `get_send`: the engine, the microseconds of the connecting and whether the handle is reused.
unfoldable pub get_send : GrpcH2Engine → Option ℕ → Option (GrpcH2Engine × ℕ × Bool)
get_send e connects = if e.send then some (e, 0, true) else elim connects [
  | none ↦ none
  | some conn_us ↦ some (record e { send = true }, conn_us, false)
]

unfoldable pub clear_send : GrpcH2Engine → GrpcH2Engine
clear_send e = record e { send = false }

-- `ActiveGuard::new` and its drop.
abbrev pub guarded : GrpcH2Engine → GrpcH2Engine
guarded e = record e { active = add64 e.active 1 }

abbrev pub released : GrpcH2Engine → GrpcH2Engine
released e = record e { active = sub64 e.active 1 }

abbrev pub error_of : Call → RequestMetric
error_of x = builder x.latency_micros x.fault

-- What `read_response` gives under the deadline.
abbrev pub outcome_of : Call → Option (ℕ × ℕ)
outcome_of x = if x.in_time then read_response x.response else none

abbrev pub release_after :
    GrpcH2Engine → Option RequestMetric → Option (GrpcH2Engine × RequestMetric)
release_after busy none = none
release_after busy (some m) = some (released busy, m)

module _ (divide : ℕ → ℕ → ℕ) where
  unfoldable pub grpc_sample : ℕ → ℕ → Flow → GrpcSample
  grpc_sample active_streams max_concurrent flow = record {
    active_streams = active_streams;
    max_concurrent_streams = max_concurrent;
    utilization = if ltb 0 max_concurrent then divide active_streams max_concurrent else 0;
    window_exhaustion_events = flow.events;
    window_stall_us = flow.stall_us;
    send_capacity_bytes = flow.cap_min;
    has_send_capacity = flow.has_cap;
  }

  unfoldable pub answer_metric : Call → ℕ → ℕ → Bool → Flow → Option (ℕ × ℕ) → RequestMetric
  answer_metric x active_streams conn_us reused flow none = error_of x
  answer_metric x active_streams conn_us reused flow (some (code, body_len)) =
      with_sample Samples.grpc (some (grpc_sample active_streams x.max_concurrent flow)) (
        socket_reused reused (
          connection_latency_us (if ltb 0 conn_us then some conn_us else none) (
            bytes body_len (status (grpc_to_http_status code) (builder x.latency_micros x.fault)))))

  -- The metric of a stream with `active_streams` in flight, whose frame has been driven. A wait for
  -- credit that does not come does not return.
  unfoldable pub stream_metric : Call → ℕ → ℕ → Bool → Driven → Option RequestMetric
  stream_metric x active_streams conn_us reused awaits_credit = none
  stream_metric x active_streams conn_us reused aborted = some (error_of x)
  stream_metric x active_streams conn_us reused (finished flow) =
      some (answer_metric x active_streams conn_us reused flow (outcome_of x))

  -- The iteration on a handle.
  unfoldable pub on_handle : GrpcH2Engine → Call → ℕ → Bool → Option (GrpcH2Engine × RequestMetric)
  on_handle e x conn_us reused =
      if not x.ready
      then some (clear_send e, error_of x)
      else if not x.valid
      then some (e, error_of x)
      else if not x.opens
      then some (clear_send e, error_of x)
      else (let busy = guarded e in
          let frame = build_frame (payload_bytes_of e x.fault) in
          release_after busy
            (stream_metric x busy.active conn_us reused (drive_send x.credits true frame).0))

  -- `execute_iteration`
  unfoldable pub execute_call : GrpcH2Engine → Call → Option (GrpcH2Engine × RequestMetric)
  execute_call e x = elim x.fault [
    | some connection_drop ↦ some (e, builder x.latency_micros (some connection_drop))
    | _ ↦ elim (get_send e x.connects) [
      | none ↦ some (e, error_of x)
      | some (live, conn_us, reused) ↦ on_handle live x conn_us reused
    ]
  ]
