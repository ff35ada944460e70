-- ===== src/Metrics.antt =====
-- Metrics of the load generator itself, src/metrics.
pub mod Samples
pub mod Request
pub mod Histograms
pub mod Protocols
pub mod Accumulators
pub mod Streams
pub mod Timed
pub mod Timeline
pub mod Pubsub
pub mod Aggregate
mod Tests
