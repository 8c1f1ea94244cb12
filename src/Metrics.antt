-- ===== src/Metrics.antt =====
-- src/atlas/metrics: the utilization integral (Utilization), the samples of a finished run (Samples),
-- their order statistics (Percentiles).
pub mod Utilization
pub mod Samples
pub mod Percentiles
pub mod Load
