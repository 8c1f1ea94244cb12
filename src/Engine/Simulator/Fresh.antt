-- ===== src/Engine/Simulator/Fresh.antt =====
-- A cluster as its constructor in src/atlas/model/cluster.hpp makes it, and generated jobs, as
-- src/atlas/engine/simulator.cpp takes them.
use atlas_simulator.Prelude.{
  ℕ, ◌*◌, ◌≤◌, ◌<◌, ◌≡◌, refl, ap, sym, ◌≢◌, List, [], Option, some, arith, All, All-get_elem?,
  All-intro, get_elem?, get_elem?-in, length, subst, ◌∙◌, u32_mod, u64_mod,
}
use atlas_simulator.Model.Types.{Resources, Node, IsNode, Job}
use atlas_simulator.Model.Cluster.{make_cluster}
use atlas_simulator.Model.Cluster.Fresh.{new_node, node_at, length-nodes}
use atlas_simulator.Model.Workload.{JobProfile, job_profiles, default_resources}
use atlas_simulator.Model.Workload.Draws.{Drawn}
use atlas_simulator.Model.Workload.Jobs.{
  Drawn-ids, Drawn-queued, Drawn-submits, Drawn-asks, Drawn-sum,
}
use atlas_simulator.Sched.Place.{Scheduler}
use atlas_simulator.Sched.Place.Any.{IsReady}
use atlas_simulator.Sched.Queue.Reserve.{HasDenseIds}
use atlas_simulator.Engine.Simulator.Ledger.{unstarted_one}
use atlas_simulator.Engine.Simulator.Seed.{CanRun, IsUnused}
use atlas_simulator.Engine.Simulator.Complete.{EachFitsAlone}

module _ (count : ℕ) (per_node : Resources) where
  abbrev nodes : List Node
  nodes = (make_cluster count per_node).nodes

  new-HasDenseIds : HasDenseIds nodes
  new-HasDenseIds i n at = ap (λ (m : Node). m.id) (node_at count per_node i n at)

  new-IsUnused : All IsUnused nodes
  new-IsUnused =
      All-intro IsUnused nodes (λ i n at. rw (node_at count per_node i n at) (refl, refl, refl))

  new-IsNode : per_node.cores < u32_mod → per_node.memory_mb < u64_mod → All IsNode nodes
  new-IsNode h k = All-intro IsNode nodes (λ i n at. rw (node_at count per_node i n at) (record {
    cores_fit = h;
    memory_fit = k;
    free_cores = omega arith;
    free_memory = omega arith;
  }))

  first_node : 0 < count → get_elem? nodes 0 ≡ some (new_node per_node 0)
  first_node h =
      let (n, at) = get_elem?-in nodes 0 (omega (arith, length-nodes count per_node)) in
      at ∙ ap some (node_at count per_node 0 n at)

pub profiles_fit :
    (i : ℕ) (p : JobProfile)
    → get_elem? job_profiles i ≡ some p
    → (p.request.cores ≤ default_resources.cores)
      × (p.request.memory_mb ≤ default_resources.memory_mb)
profiles_fit i p at =
    All-get_elem?
      (λ p.
        (p.request.cores ≤ default_resources.cores)
        × (p.request.memory_mb ≤ default_resources.memory_mb))
      job_profiles i (omega arith) at

module _ (count bound : ℕ) (jobs : List Job) (drawn : Drawn bound 0 0 jobs) where
  -- Generated jobs on a new cluster of such nodes may be run.
  pub drawn-CanRun :
      (scheduler : Option Scheduler)
      → jobs ≢ []
      → length jobs < u32_mod
      → count < u32_mod
      → 2 * (length jobs * bound) < u64_mod
      → ((s : Scheduler) → scheduler ≡ some s → IsReady s count)
      → CanRun (make_cluster count default_resources) jobs scheduler
  drawn-CanRun scheduler some_jobs few few_nodes room ready =
      let total = Drawn-sum unstarted_one bound 0 0 jobs unstarted-le drawn in
      let submits = Drawn-submits bound 0 0 (length jobs * bound) jobs (omega arith) drawn in
      record {
        some_jobs = some_jobs;
        ids = λ id j at. Drawn-ids bound 0 jobs id j drawn at;
        few = few;
        all_queued = Drawn-queued bound 0 0 jobs drawn;
        room = All-intro _ jobs (λ id j at.
            let early =
              All-get_elem? (λ (j : Job). j.submit_time ≤ length jobs * bound) jobs id submits at in
            omega (arith, total, early));
        nodes_ok = new-IsNode count default_resources (omega arith) (omega arith);
        dense = new-HasDenseIds count default_resources;
        few_nodes = omega (arith, length-nodes count default_resources);
        unused = new-IsUnused count default_resources;
        ready = λ s e. subst (IsReady s) (sym (length-nodes count default_resources)) (ready s e);
      }
    where
      unstarted-le : (j : Job) → unstarted_one j ≤ j.duration
      unstarted-le j = ground arith

  -- Each of them fits on the first node.
  pub drawn-EachFitsAlone : 0 < count → EachFitsAlone (make_cluster count default_resources) jobs
  drawn-EachFitsAlone some_nodes id j at =
      let (i, p, place, asks) = Drawn-asks bound 0 0 jobs id j drawn at in
      let (cores, memory) = profiles_fit i p place in
      (
        0,
        new_node default_resources 0,
        first_node count default_resources some_nodes,
        omega (arith, ap (λ (r : Resources). r.cores) asks),
        omega (arith, ap (λ (r : Resources). r.memory_mb) asks),
      )
