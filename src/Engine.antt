-- ===== src/Engine.antt =====
-- src/atlas/engine: events and their queue (Events), the simulator (Simulator).
pub mod Events
pub mod Board
pub mod Simulator
