-- ===== src/Load.antt =====
-- The load of one process, src/lib.rs: its workers, and the supervisor that scales their number.
pub mod Worker
pub mod Counters
pub mod Refused
pub mod Accounts
pub mod Supervisor
pub mod Scaling
mod Tests
