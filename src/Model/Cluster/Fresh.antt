-- ===== src/Model/Cluster/Fresh.antt =====
-- The nodes that the constructor of src/atlas/model/cluster.hpp makes.
use atlas_simulator.Prelude.{
  ℕ, zero, suc, ◌+◌, ◌*◌, ◌≡◌, refl, ap, sym, ◌∙◌, List, some, arith, get_elem?, length, sum_of,
}
use atlas_simulator.Model.Types.{Resources, Node}
use atlas_simulator.Model.Cluster.{make_nodes, make_cluster}

-- Node `i` of a new cluster.
abbrev pub new_node : Resources → ℕ → Node
new_node per_node i = record { id = i; capacity = per_node; free = per_node; running_jobs = 0 }

make_nodes-get :
    (left from : ℕ) (per_node : Resources) (i : ℕ) (n : Node)
    → get_elem? (make_nodes left from per_node) i ≡ some n
    → n ≡ new_node per_node (from + i)
unfolding make_nodes
make_nodes-get zero from per_node i n at = cc
make_nodes-get (suc left) from per_node zero n at =
    let same : from ≡ from + 0 = omega arith in
    let first : new_node per_node from ≡ n = cc in sym first ∙ ap (new_node per_node) same
make_nodes-get (suc left) from per_node (suc i) n at =
    let same : suc from + i ≡ from + suc i = omega arith in
    make_nodes-get left (suc from) per_node i n at ∙ ap (new_node per_node) same

length-make_nodes :
    (left from : ℕ) (per_node : Resources) → length (make_nodes left from per_node) ≡ left
unfolding make_nodes
length-make_nodes zero from per_node = refl
length-make_nodes (suc left) from per_node = ap suc (length-make_nodes left (suc from) per_node)

module _ (count : ℕ) (per_node : Resources) where
  abbrev nodes : List Node
  nodes = (make_cluster count per_node).nodes

  pub node_at : (i : ℕ) (n : Node) → get_elem? nodes i ≡ some n → n ≡ new_node per_node i
  unfolding make_cluster
  node_at i n at =
      let same : 0 + i ≡ i = omega arith in
      make_nodes-get count 0 per_node i n at ∙ ap (new_node per_node) same

  pub length-nodes : length nodes ≡ count
  unfolding make_cluster
  length-nodes = length-make_nodes count 0 per_node

-- The nodes' capacities, of one kind, add up.
capacities :
    (g : Resources → ℕ) (left from : ℕ) (per_node : Resources)
    → sum_of (λ (n : Node). g n.capacity) (make_nodes left from per_node) ≡ left * g per_node
unfolding make_nodes
capacities g zero from per_node = omega arith
capacities g (suc left) from per_node =
    let split : suc left * g per_node ≡ g per_node + left * g per_node = grind arith in
    omega (arith, split, capacities g left (suc from) per_node)

pub total_capacities :
    (g : Resources → ℕ) (count : ℕ) (per_node : Resources)
    → sum_of (λ (n : Node). g n.capacity) (make_cluster count per_node).nodes ≡ count * g per_node
unfolding make_cluster
total_capacities g count per_node = capacities g count 0 per_node
