-- ===== src/Grpc/Framing.antt =====
-- The message framing and the statuses of src/protocols/grpc_h2.rs and src/protocols/grpc.rs. A
-- header map is given by what `grpc-status` parses to in it.
use strobengine.Prelude.{
  ℕ, suc, ◌%◌, ◌^◌, ◌<◌, ◌≤◌, ◌≡◌, refl, ◌⊎◌, ◌∙◌, ap, sym, true, List, [], ◌∷◌, ◌++◌, Option, none,
  some, arith, leb, ◌==◌, if◌then◌else◌, length, take, drop, map, append-nil, append_assoc,
}
use strobengine.Text.Utf8.{Bytes}
use strobengine.Metrics.Pubsub.{be_bytes, from_be_bytes}

-- `build_frame`; the length is a `u32`, of which `be_bytes` takes the low four bytes.
unfoldable pub build_frame : Bytes → Bytes
build_frame payload = 0 ∷ (be_bytes 4 (length payload) ++ payload)

-- `grpc_to_http_status`
unfoldable pub grpc_to_http_status : ℕ → ℕ
grpc_to_http_status code =
    if code == 0
    then 200
    else if code == 1
    then 499
    else if code == 2
    then 500
    else if code == 3
    then 400
    else if code == 4
    then 504
    else if code == 5
    then 404
    else if code == 6
    then 409
    else if code == 7
    then 403
    else if code == 8
    then 429
    else if code == 9
    then 412
    else if code == 10
    then 409
    else if code == 11
    then 416
    else if code == 12
    then 501
    else if code == 13
    then 500
    else if code == 14
    then 503
    else if code == 15
    then 500
    else if code == 16
    then 401
    else 500

-- The trailers: a transport error, none, or those with this `grpc-status`.
pub data Trailers : Type 0 where
  lost : Trailers
  no_trailers : Trailers
  trailers : Option ℕ → Trailers

abbrev or_head : Option ℕ → Option ℕ → ℕ
or_head (some code) head = code
or_head none (some code) = code
or_head none none = 0

unfoldable pub resolve_grpc_status : Trailers → Option ℕ → Option ℕ
resolve_grpc_status lost head = none
resolve_grpc_status no_trailers head = some (or_head none head)
resolve_grpc_status (trailers code) head = some (or_head code head)

-- A response: its HTTP status, the `grpc-status` of its head, its data, `none` for a transport
-- error, and its trailers.
pub record GrpcResponse : Type 0 where
  pub http_status : ℕ
  pub head : Option ℕ
  pub «data» : List (Option Bytes)
  pub trailing : Trailers

unfoldable pub read_data : Bytes → List (Option Bytes) → Option Bytes
read_data body [] = some body
read_data body (none ∷ rest) = none
read_data body (some chunk ∷ rest) = read_data (body ++ chunk) rest

unfoldable pub message_len : Bytes → ℕ
message_len body = if leb 5 (length body) then from_be_bytes 0 (take 4 (drop 1 body)) else 0

-- `read_response`; no response at all is a failure of the future.
unfoldable pub read_response : Option GrpcResponse → Option (ℕ × ℕ)
read_response none = none
read_response (some r) =
    if r.http_status == 200
    then (elim (read_data [] r.«data») [
      | none ↦ none
      | some body ↦ elim (resolve_grpc_status r.trailing r.head) [
        | none ↦ none
        | some code ↦ some (code, message_len body)
      ]
    ])
    else some (2, 0)

-- Only the code 0 is the status 200; every other is an HTTP error.
pub grpc_to_http_status-error :
    (code : ℕ)
    → ((code ≡ 0) × (grpc_to_http_status code ≡ 200))
      ⊎ ((0 < code) × (400 ≤ grpc_to_http_status code) × (grpc_to_http_status code < 600))
unfolding grpc_to_http_status
grpc_to_http_status-error code = ground arith

low_word : (n : ℕ) → from_be_bytes 0 (be_bytes 4 n) ≡ n % 2 ^ 32
unfolding from_be_bytes be_bytes
low_word n = omega arith

-- The length that a frame announces is the low word of the payload's.
pub message_len-build_frame :
    (payload : Bytes) → message_len (build_frame payload) ≡ length payload % 2 ^ 32
unfolding message_len build_frame be_bytes
message_len-build_frame payload =
    ap (λ b. if b then from_be_bytes 0 (be_bytes 4 (length payload)) else 0)
      (long_enough (length payload))
    ∙ low_word (length payload)
  where
    long_enough : (n : ℕ) → leb 5 (suc (suc (suc (suc (suc n))))) ≡ true
    long_enough n = ground arith

unfoldable pub concat : List Bytes → Bytes
concat [] = []
concat (p ∷ ps) = p ++ concat ps

read_data-pieces :
    (body : Bytes) (ps : List Bytes) → read_data body (map some ps) ≡ some (body ++ concat ps)
unfolding read_data concat
read_data-pieces body [] = ap some (sym (append-nil body))
read_data-pieces body (p ∷ ps) =
    read_data-pieces (body ++ p) ps ∙ ap some (append_assoc body p (concat ps))

-- A response of status 200 whose data holds one framed message, however it is cut into pieces,
-- reports that message's length, if it is below 2 ^ 32, and the status of its trailers or its head.
pub read_response-build_frame :
    (r : GrpcResponse) (ps : List Bytes) (payload : Bytes) (code : ℕ)
    → r.http_status ≡ 200
    → r.«data» ≡ map some ps
    → concat ps ≡ build_frame payload
    → resolve_grpc_status r.trailing r.head ≡ some code
    → length payload < 2 ^ 32
    → read_response (some r) ≡ some (code, length payload)
unfolding read_response
read_response-build_frame r ps payload code h d c t b =
    let whole : read_data [] r.«data» ≡ some (build_frame payload) =
      ap (read_data []) d ∙ read_data-pieces [] ps ∙ ap some c in
    let len : message_len (build_frame payload) ≡ length payload =
      message_len-build_frame payload ∙ omega (arith, b) in
    rw (h, whole, t, len, read_response) refl
