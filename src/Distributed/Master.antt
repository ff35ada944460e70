-- ===== src/Distributed/Master.antt =====
-- The master node, src/distributed/master.
pub mod Registry
pub mod Barrier
pub mod Metrics
pub mod Pipeline
pub mod Run
mod Tests
