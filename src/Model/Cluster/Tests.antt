-- ===== src/Model/Cluster/Tests.antt =====
-- One node of src/atlas/model/cluster.hpp, half in use.
use atlas_simulator.Prelude.{◌+◌, ◌≡◌, refl, [], ◌∷◌, some, arith, add32, sub32, sub64}
use atlas_simulator.Model.Types.{Resources, Node, IsNode, can_fit}
use atlas_simulator.Model.Cluster.{
  Cluster, allocate, release, take_from, total_utilized, total_capacity,
}
use atlas_simulator.Model.Cluster.Moves.{IsCluster, release-allocate}
use atlas_simulator.Model.Cluster.Sums.{IsSummable, total_utilized_exact, total_utilized-allocate}

abbrev half_used : Node
half_used = record {
  id = 0;
  capacity = record { cores = 16; memory_mb = 65536 };
  free = record { cores = 8; memory_mb = 32768 };
  running_jobs = 1;
}

abbrev small : Cluster
small = record { nodes = half_used ∷ [] }

abbrev request : Resources
request = record { cores = 3; memory_mb = 1024 }

abbrev after : Cluster
after = record {
  nodes =
      (record half_used { free = record { cores = 5; memory_mb = 31744 }; running_jobs = 2 }) ∷ [];
}

half_used-IsNode : IsNode half_used
half_used-IsNode = record {
  cores_fit = omega arith;
  memory_fit = omega arith;
  free_cores = omega arith;
  free_memory = omega arith;
}

small-IsSummable : IsSummable small
small-IsSummable = record { cores_sum = omega arith; memory_sum = omega arith }

small-IsCluster : IsCluster small
small-IsCluster = ((half_used-IsNode, omega arith), tt)

small_allocates : allocate small 0 request ≡ some after
unfolding allocate can_fit take_from add32 sub32 sub64
small_allocates = refl

release-allocate_example : release after 0 request ≡ some small
release-allocate_example = release-allocate small after 0 request small-IsCluster small_allocates

total_utilized_exact_example : total_utilized small ≡ record { cores = 8; memory_mb = 32768 }
total_utilized_exact_example = total_utilized_exact small (half_used-IsNode, tt) small-IsSummable

total_utilized-allocate_example :
    (total_utilized after ≡ record {
      cores = (total_utilized small).cores + 3;
      memory_mb = (total_utilized small).memory_mb + 1024;
    })
    × (total_capacity after ≡ total_capacity small)
total_utilized-allocate_example =
    total_utilized-allocate small after 0 request small-IsCluster small-IsSummable small_allocates
