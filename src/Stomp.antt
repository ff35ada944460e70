-- ===== src/Stomp.antt =====
-- The STOMP 1.2 frame codec, src/protocols/stomp_codec.rs.
pub mod Escape
pub mod Frame
pub mod Decoder
mod Lines
pub mod RoundTrip
pub mod Progress
pub mod Consumes
pub mod Connection
pub mod Session
pub mod Engine
pub mod Attempts
pub mod Lifecycle
pub mod Status
pub mod Reconnects
pub mod Rounds
pub mod Finishes
pub mod Delivered
pub mod Sent
pub mod Authority
mod Tests
mod EngineTests
