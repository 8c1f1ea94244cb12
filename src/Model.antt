-- ===== src/Model.antt =====
-- src/atlas/model: resources, nodes, jobs and the cluster; src/atlas/engine/clock.hpp.
pub mod Types
pub mod Cluster
pub mod Random
pub mod Workload
