-- ===== src/Model/Cluster.antt =====
-- src/atlas/model/cluster.hpp. An operation whose assertion fails, or that indexes outside the
-- nodes, has the value `none`.
mod Tests
pub mod Moves
pub mod Sums
pub mod Fresh
use atlas_simulator.Prelude.{
  ℕ, zero, suc, ◌<◌, ◌≡◌, Bool, List, [], ◌∷◌, Option, some, ltb, leb, get_elem?, set, length,
  assert, ◌>>=◌, ◌>>◌, add32, sub32, add64, sub64,
}
use atlas_simulator.Model.Types.{Resources, Node, can_fit}

pub record Cluster : Type 0 where
  pub nodes : List Node

-- The constructor's loop: nodes `i`, `i + 1`, ... up to the count.
make_nodes : ℕ → ℕ → Resources → List Node
make_nodes zero i per_node = []
make_nodes (suc left) i per_node =
    (record { id = i; capacity = per_node; free = per_node; running_jobs = 0 })
    ∷ make_nodes left (suc i) per_node

unfoldable pub make_cluster : ℕ → Resources → Cluster
unfolding make_nodes
make_cluster node_count per_node = record { nodes = make_nodes node_count 0 per_node }

unfoldable pub take_from : Node → Resources → Node
take_from n request = record n {
  free = record {
    cores = sub32 n.free.cores request.cores;
    memory_mb = sub64 n.free.memory_mb request.memory_mb;
  };
  running_jobs = add32 n.running_jobs 1;
}

unfoldable pub give_back : Node → Resources → Node
give_back n request = record n {
  free = record {
    cores = add32 n.free.cores request.cores;
    memory_mb = add64 n.free.memory_mb request.memory_mb;
  };
  running_jobs = sub32 n.running_jobs 1;
}

unfoldable pub allocate : Cluster → ℕ → Resources → Option Cluster
allocate c id request = do
  n ← get_elem? c.nodes id
  assert (can_fit n request)
  some (record { nodes = set c.nodes id (take_from n request) })

unfoldable pub release : Cluster → ℕ → Resources → Option Cluster
release c id request = do
  n ← get_elem? c.nodes id
  assert (ltb 0 n.running_jobs)
  assert (leb request.cores (sub32 n.capacity.cores n.free.cores))
  assert (leb request.memory_mb (sub64 n.capacity.memory_mb n.free.memory_mb))
  some (record { nodes = set c.nodes id (give_back n request) })

sum_capacity : Resources → List Node → Resources
sum_capacity sum [] = sum
sum_capacity sum (n ∷ ns) =
    sum_capacity
      (record {
        cores = add32 sum.cores n.capacity.cores;
        memory_mb = add64 sum.memory_mb n.capacity.memory_mb;
      })
      ns

sum_free : Resources → List Node → Resources
sum_free sum [] = sum
sum_free sum (n ∷ ns) =
    sum_free
      (record {
        cores = add32 sum.cores n.free.cores;
        memory_mb = add64 sum.memory_mb n.free.memory_mb;
      })
      ns

abbrev no_resources : Resources
no_resources = record { cores = 0; memory_mb = 0 }

unfoldable pub total_capacity : Cluster → Resources
unfolding sum_capacity
total_capacity c = sum_capacity no_resources c.nodes

unfoldable pub total_free : Cluster → Resources
unfolding sum_free
total_free c = sum_free no_resources c.nodes

unfoldable pub total_utilized : Cluster → Resources
unfolding total_capacity total_free
total_utilized c =
    let free = total_free c in
    let total = total_capacity c in
    record {
      cores = sub32 total.cores free.cores;
      memory_mb = sub64 total.memory_mb free.memory_mb;
    }
