-- ===== src/Grpc/Tests.antt =====
-- Calls of src/protocols/grpc_h2.rs, and its theorems at concrete peers.
use strobengine.Prelude.{
  ℕ, ◌≤◌, ◌≡◌, length, refl, true, false, List, [], ◌∷◌, none, some, arith, map, take, drop,
}
use strobengine.Metrics.Pubsub.{be_bytes}
use strobengine.Chaos.{ascii}
use strobengine.Grpc.Framing.{
  build_frame, GrpcResponse, trailers, concat, read_response, resolve_grpc_status,
  read_response-build_frame,
}
use strobengine.Grpc.Sending.{Credit, granted, drive_send, Delivers}
use strobengine.Grpc.Complete.{total_credit, IsFinished, drive_send-Delivers, drive_send-IsFinished}
use strobengine.Grpc.Engine.{GrpcH2Engine, Call, execute_call}
use strobengine.Grpc.Answered.{Reported, execute_call-Reported}

abbrev engine : GrpcH2Engine
engine = record {
  service = ascii "pkg.Greeter";
  method = ascii "/Hello";
  payload = ascii "hello";
  send = true;
  active = 3;
}

-- Credit in three grants, the second of them empty and after a stall.
abbrev grants : List Credit
grants = granted 4 false 0 true ∷ granted 0 true 7 true ∷ granted 9 true 20 true ∷ []

-- The message comes in two pieces.
abbrev pieces : List (List ℕ)
pieces = take 3 (build_frame (ascii "hey")) ∷ drop 3 (build_frame (ascii "hey")) ∷ []

abbrev answer : GrpcResponse
answer = record {
  http_status = 200;
  head = none;
  «data» = map some pieces;
  trailing = trailers (some 5);
}

abbrev call : Call
call = record {
  fault = none;
  connects = none;
  ready = true;
  valid = true;
  opens = true;
  max_concurrent = 100;
  credits = grants;
  in_time = true;
  response = some answer;
  latency_micros = 90;
}

abbrev no_quotient : ℕ → ℕ → ℕ
no_quotient a b = 0

pieces_whole : concat pieces ≡ build_frame (ascii "hey")
unfolding concat build_frame be_bytes
pieces_whole = refl

answered : resolve_grpc_status answer.trailing answer.head ≡ some 5
unfolding resolve_grpc_status
answered = refl

read_response-build_frame_example : read_response (some answer) ≡ some (5, 3)
read_response-build_frame_example =
    read_response-build_frame answer pieces (ascii "hey") 5 refl refl pieces_whole answered
      (omega arith)

drive_send-Delivers_example :
    Delivers (build_frame (ascii "hello")) (drive_send grants true (build_frame (ascii "hello")))
drive_send-Delivers_example = drive_send-Delivers grants true (build_frame (ascii "hello"))

drive_send-IsFinished_example : IsFinished (drive_send grants true (0 ∷ ascii "hello")).0
drive_send-IsFinished_example =
    drive_send-IsFinished grants 0 (ascii "hello") (refl, (refl, (refl, tt)))
      (unfold total_credit in omega arith)

execute_call-Reported_example : Reported call 3 (execute_call no_quotient engine call)
execute_call-Reported_example = execute_call-Reported no_quotient engine call (omega arith)

-- The frame of ten bytes has credit for thirteen.
credit_enough : length (build_frame (engine.payload)) ≤ total_credit (call.credits)
unfolding total_credit build_frame be_bytes
credit_enough = omega arith

-- INVALID_ARGUMENT
abbrev invalid_argument : ℕ
invalid_argument = 3
