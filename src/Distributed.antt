-- ===== src/Distributed.antt =====
-- The distributed mode, src/distributed: the worker daemon and the master controller.
pub mod State
pub mod Worker
pub mod Telemetry
pub mod Master
