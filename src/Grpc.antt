-- ===== src/Grpc.antt =====
-- gRPC over a shared HTTP/2 connection, src/protocols/grpc_h2.rs, with the status mapping of
-- src/protocols/grpc.rs.
pub mod Framing
pub mod Sending
pub mod Complete
pub mod Engine
pub mod Answered
mod Tests
