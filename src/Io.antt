-- ===== src/Io.antt =====
-- src/atlas/io: the trace (Trace), the command line (Options), and a sweep over policies
-- (Compare) with the numbers that its table shows (Summary).
pub mod Trace
pub mod Options
pub mod Compare
pub mod Summary
pub mod Report
