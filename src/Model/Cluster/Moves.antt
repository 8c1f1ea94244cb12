-- ===== src/Model/Cluster/Moves.antt =====
-- `allocate` and `release` of src/atlas/model/cluster.hpp, one against the other and against the
-- rest of the cluster.
use atlas_simulator.Prelude.{
  ℕ, ◌+◌, ◌-◌, ◌<◌, ◌≡◌, ap, ◌∙◌, Bool, true, ◌&&◌, some, arith, ltb, leb, get_elem?, set, sub32,
  sub64, u32_mod, add32_exact, sub32_exact, add64_exact, sub64_exact, get_elem?-lt,
  get_elem?-set_self, set-set, set-get_elem?, All, All-get_elem?,
}
use atlas_simulator.Model.Types.{Resources, Node, IsNode, can_fit}
use atlas_simulator.Model.Cluster.{Cluster, allocate, release, take_from, give_back}

-- What a node looks like with `request` taken, with no wrap-around in sight.
pub take_from_exact :
    (n : Node) (request : Resources)
    → IsNode n
    → can_fit n request ≡ true
    → n.running_jobs + 1 < u32_mod
    → take_from n request ≡ record n {
      free = record {
        cores = n.free.cores - request.cores;
        memory_mb = n.free.memory_mb - request.memory_mb;
      };
      running_jobs = n.running_jobs + 1;
    }
unfolding take_from can_fit
take_from_exact n request v h k = ground (
  arith,
  sub32_exact n.free.cores request.cores,
  sub64_exact n.free.memory_mb request.memory_mb,
  add32_exact n.running_jobs 1,
)

pub take_from-IsNode :
    (n : Node) (request : Resources)
    → IsNode n
    → can_fit n request ≡ true
    → IsNode (take_from n request)
unfolding take_from can_fit
take_from-IsNode n request v h =
    ground (
      arith,
      sub32_exact n.free.cores request.cores,
      sub64_exact n.free.memory_mb request.memory_mb,
    )

-- Allocation is refused exactly where its assertion fails or the node is missing.
pub allocate-eq-some :
    (c : Cluster) (id : ℕ) (request : Resources) (n : Node)
    → get_elem? c.nodes id ≡ some n
    → can_fit n request ≡ true
    → allocate c id request ≡ some (record { nodes = set c.nodes id (take_from n request) })
unfolding allocate
allocate-eq-some c id request n at fits = rw (at, allocate) (rw fits)

pub give_back-take_from :
    (n : Node) (request : Resources)
    → IsNode n
    → can_fit n request ≡ true
    → n.running_jobs + 1 < u32_mod
    → give_back (take_from n request) request ≡ n
unfolding give_back can_fit
give_back-take_from n request v h k = rw (take_from_exact n request v h k) (
    ground (
      arith,
      add32_exact (n.free.cores - request.cores) request.cores,
      add64_exact (n.free.memory_mb - request.memory_mb) request.memory_mb,
      sub32_exact (n.running_jobs + 1) 1,
    ))

-- The three assertions of `release`.
abbrev pub releasable : Node → Resources → Bool
releasable n request =
    ltb 0 n.running_jobs
    && leb request.cores (sub32 n.capacity.cores n.free.cores)
    && leb request.memory_mb (sub64 n.capacity.memory_mb n.free.memory_mb)

pub release-eq-some :
    (c : Cluster) (id : ℕ) (request : Resources) (n : Node)
    → get_elem? c.nodes id ≡ some n
    → releasable n request ≡ true
    → release c id request ≡ some (record { nodes = set c.nodes id (give_back n request) })
unfolding release
release-eq-some c id request n at h = rw (at, release) (ground arith)

take_from-releasable :
    (n : Node) (request : Resources)
    → IsNode n
    → can_fit n request ≡ true
    → n.running_jobs + 1 < u32_mod
    → releasable (take_from n request) request ≡ true
unfolding can_fit
take_from-releasable n request v h k = rw (take_from_exact n request v h k) (
    ground (
      arith,
      sub32_exact n.capacity.cores (n.free.cores - request.cores),
      sub64_exact n.capacity.memory_mb (n.free.memory_mb - request.memory_mb),
    ))

-- What a successful allocation found.
pub allocate_found :
    (c : Cluster) (id : ℕ) (request : Resources) {c' : Cluster}
    → allocate c id request ≡ some c'
    → (n : Node) × (get_elem? c.nodes id ≡ some n)
      × (can_fit n request ≡ true)
      × (c' ≡ record { nodes = set c.nodes id (take_from n request) })
unfolding allocate
allocate_found c id request e = ground arith

-- Every node holds values of its field types, has no more free than its capacity, and its count
-- of running jobs has room for one more.
abbrev pub IsCluster : Cluster → Type 0
IsCluster c = All (λ n. IsNode n × (n.running_jobs + 1 < u32_mod)) c.nodes

-- Whatever a successful `allocate` took, `release` of the same request on the same node is
-- accepted and restores the cluster as it was.
pub release-allocate :
    (c c' : Cluster) (id : ℕ) (request : Resources)
    → IsCluster c
    → allocate c id request ≡ some c'
    → release c' id request ≡ some c
release-allocate c c' id request v e =
    let (n, at, fits, made) = allocate_found c id request e in
    let (node, room) = All-get_elem? _ c.nodes id v at in
    let back : get_elem? (set c.nodes id (take_from n request)) id ≡ some (take_from n request) =
      get_elem?-set_self c.nodes id _ (get_elem?-lt c.nodes id at) in
    rw made (
      release-eq-some (record { nodes = set c.nodes id (take_from n request) }) id request
        (take_from n request) back (take_from-releasable n request node fits room)
      ∙ ap (λ ns. some (record { nodes = ns }))
          (set-set c.nodes id _ _
            ∙ rw (give_back-take_from n request node fits room) (set-get_elem? c.nodes id n at)))
