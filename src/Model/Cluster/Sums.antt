-- ===== src/Model/Cluster/Sums.antt =====
-- `total_capacity`, `total_free` and `total_utilized` of src/atlas/model/cluster.hpp, against the
-- sums that they stand for.
use atlas_simulator.Prelude.{
  ℕ, ◌+◌, ◌-◌, ◌<◌, ◌≡◌, refl, true, List, [], ◌∷◌, some, arith, set, u32_mod, u64_mod, add32_exact,
  sub32_exact, add64_exact, sub64_exact, All, All-get_elem?, All-set, ap, sum_of, sum_of-set,
}
use atlas_simulator.Model.Types.{Resources, Node, IsNode, can_fit}
use atlas_simulator.Model.Cluster.{
  Cluster, allocate, take_from, sum_capacity, sum_free, no_resources, total_capacity,
  total_utilized,
}
use atlas_simulator.Model.Cluster.Moves.{
  IsCluster, allocate_found, take_from_exact, take_from-IsNode,
}

abbrev pub cores_held : Node → ℕ
cores_held n = n.capacity.cores - n.free.cores

abbrev pub memory_held : Node → ℕ
memory_held n = n.capacity.memory_mb - n.free.memory_mb

-- The cluster's total capacity is a value of the types that hold it.
pub record IsSummable (c : Cluster) : Type 0 where
  pub cores_sum : sum_of (λ n. n.capacity.cores) c.nodes < u32_mod
  pub memory_sum : sum_of (λ n. n.capacity.memory_mb) c.nodes < u64_mod

sum_capacity_exact :
    (sum : Resources) (ns : List Node)
    → sum.cores + sum_of (λ n. n.capacity.cores) ns < u32_mod
    → sum.memory_mb + sum_of (λ n. n.capacity.memory_mb) ns < u64_mod
    → sum_capacity sum ns ≡ record {
      cores = sum.cores + sum_of (λ n. n.capacity.cores) ns;
      memory_mb = sum.memory_mb + sum_of (λ n. n.capacity.memory_mb) ns;
    }
unfolding sum_capacity
sum_capacity_exact sum [] h k = ground arith
sum_capacity_exact sum (n ∷ ns) h k =
    rw
      (
        add32_exact sum.cores n.capacity.cores (omega arith),
        add64_exact sum.memory_mb n.capacity.memory_mb (omega arith),
      )
      (ground (
        arith,
        sum_capacity_exact
            (record {
              cores = sum.cores + n.capacity.cores;
              memory_mb = sum.memory_mb + n.capacity.memory_mb;
            })
            ns (omega arith) (omega arith),
      ))

sum_free_exact :
    (sum : Resources) (ns : List Node)
    → sum.cores + sum_of (λ n. n.free.cores) ns < u32_mod
    → sum.memory_mb + sum_of (λ n. n.free.memory_mb) ns < u64_mod
    → sum_free sum ns ≡ record {
      cores = sum.cores + sum_of (λ n. n.free.cores) ns;
      memory_mb = sum.memory_mb + sum_of (λ n. n.free.memory_mb) ns;
    }
unfolding sum_free
sum_free_exact sum [] h k = ground arith
sum_free_exact sum (n ∷ ns) h k =
    rw
      (
        add32_exact sum.cores n.free.cores (omega arith),
        add64_exact sum.memory_mb n.free.memory_mb (omega arith),
      )
      (ground (
        arith,
        sum_free_exact
            (record {
              cores = sum.cores + n.free.cores;
              memory_mb = sum.memory_mb + n.free.memory_mb;
            })
            ns (omega arith) (omega arith),
      ))

sums_split :
    (ns : List Node)
    → All IsNode ns
    → (sum_of (λ n. n.capacity.cores) ns ≡ sum_of cores_held ns + sum_of (λ n. n.free.cores) ns)
      × (sum_of (λ n. n.capacity.memory_mb) ns
          ≡ sum_of memory_held ns + sum_of (λ n. n.free.memory_mb) ns)
sums_split [] v = (refl, refl)
sums_split (n ∷ ns) v = omega (arith, sums_split ns v.1)

-- `total_utilized` is the sum over the nodes of what is not free, if the nodes are well formed
-- and the total capacity is a value of its types.
pub total_utilized_exact :
    (c : Cluster)
    → All IsNode c.nodes
    → IsSummable c
    → total_utilized c
      ≡ record { cores = sum_of cores_held c.nodes; memory_mb = sum_of memory_held c.nodes }
unfolding total_utilized
total_utilized_exact c v s =
    let split = sums_split c.nodes v in
    rw
      (
        sum_capacity_exact no_resources c.nodes (omega arith) (omega arith),
        sum_free_exact no_resources c.nodes (omega arith) (omega arith),
      )
      (ground (
        arith,
        sub32_exact (sum_of (λ n. n.capacity.cores) c.nodes) (sum_of (λ n. n.free.cores) c.nodes),
        sub64_exact (sum_of (λ n. n.capacity.memory_mb) c.nodes)
            (sum_of (λ n. n.free.memory_mb) c.nodes),
      ))

pub total_capacity_exact :
    (c : Cluster)
    → IsSummable c
    → total_capacity c ≡ record {
      cores = sum_of (λ n. n.capacity.cores) c.nodes;
      memory_mb = sum_of (λ n. n.capacity.memory_mb) c.nodes;
    }
unfolding total_capacity
total_capacity_exact c s =
    rw (sum_capacity_exact no_resources c.nodes (omega arith) (omega arith)) (ground arith)

take_from_held :
    (n : Node) (request : Resources)
    → IsNode n
    → can_fit n request ≡ true
    → n.running_jobs + 1 < u32_mod
    → let m = take_from n request in
      (m.capacity ≡ n.capacity)
      × (cores_held m ≡ cores_held n + request.cores)
      × (memory_held m ≡ memory_held n + request.memory_mb)
unfolding can_fit
take_from_held n request v h k = rw (take_from_exact n request v h k) (ground arith)

All-nodes :
    (ns : List Node) → All (λ n. IsNode n × (n.running_jobs + 1 < u32_mod)) ns → All IsNode ns
All-nodes [] v = tt
All-nodes (n ∷ ns) v = (v.0.0, All-nodes ns v.1)

-- A successful allocation on well formed nodes, whose total capacity is a value of its types,
-- adds exactly the request to what `total_utilized` reports, and leaves the total capacity.
pub total_utilized-allocate :
    (c c' : Cluster) (id : ℕ) (request : Resources)
    → IsCluster c
    → IsSummable c
    → allocate c id request ≡ some c'
    → (total_utilized c' ≡ record {
      cores = (total_utilized c).cores + request.cores;
      memory_mb = (total_utilized c).memory_mb + request.memory_mb;
    })
      × (total_capacity c' ≡ total_capacity c)
total_utilized-allocate c c' id request v s e =
    let (n, at, fits, made) = allocate_found c id request e in
    let (node, room) = All-get_elem? _ c.nodes id v at in
    let held = take_from_held n request node fits room in
    let change = λ (f : Node → ℕ). sum_of-set f c.nodes id n (take_from n request) at in
    let nodes' : All IsNode (set c.nodes id (take_from n request)) =
      All-set IsNode c.nodes id _ (All-nodes c.nodes v) (take_from-IsNode n request node fits) in
    let cores_same : sum_of (λ n. n.capacity.cores) (set c.nodes id (take_from n request))
        ≡ sum_of (λ n. n.capacity.cores) c.nodes =
      omega (arith, change (λ n. n.capacity.cores), ap (λ (r : Resources). r.cores) held.0) in
    let memory_same : sum_of (λ n. n.capacity.memory_mb) (set c.nodes id (take_from n request))
        ≡ sum_of (λ n. n.capacity.memory_mb) c.nodes =
      omega
        (arith, change (λ n. n.capacity.memory_mb), ap (λ (r : Resources). r.memory_mb) held.0) in
    let taken : Cluster = record { nodes = set c.nodes id (take_from n request) } in
    let s' : IsSummable taken = record {
      cores_sum = omega (arith, cores_same);
      memory_sum = omega (arith, memory_same);
    } in
    rw
      (
        made,
        total_utilized_exact taken nodes' s',
        total_utilized_exact c (All-nodes c.nodes v) s,
        total_capacity_exact taken s',
        total_capacity_exact c s,
      )
      (ground (arith, held, change cores_held, change memory_held, cores_same, memory_same))
