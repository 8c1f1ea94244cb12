-- ===== src/Engine/Simulator/Mean.antt =====
-- `mean_utilization` of src/atlas/engine/simulator.cpp.
use atlas_simulator.Prelude.{Option, ltb, assert, ◌>>◌}
use atlas_simulator.Doubles.{Doubles}
use atlas_simulator.Model.Types.{never}
use atlas_simulator.Model.Cluster.{total_capacity}
use atlas_simulator.Metrics.Load.{LoadFactor, mean}
use atlas_simulator.Engine.Simulator.{Simulator}

module _ {W : Type 0} (d : Doubles W) where
  unfoldable pub mean_utilization : Simulator → Option (LoadFactor W)
  mean_utilization s = do
    assert (ltb s.sim_end_time never)
    mean d s.util s.sim_end_time (total_capacity s.cluster)
