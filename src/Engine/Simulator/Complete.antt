-- ===== src/Engine/Simulator/Complete.antt =====
-- A run of src/atlas/engine/simulator.cpp on jobs that each fit on some node when nothing else runs.
use atlas_simulator.Prelude.{
  ℕ, suc, ◌≤◌, ◌≡◌, refl, ap, sym, inl, inr, true, false, List, [], ◌∷◌, Option, some, arith, All,
  All-get_elem?, get_elem?, length, map, map-same_get,
}
use atlas_simulator.Model.Types.{Resources, Node, Job, done, can_fit}
use atlas_simulator.Model.Cluster.{Cluster}
use atlas_simulator.Sched.Place.{Scheduler}
use atlas_simulator.Sched.Queue.{QueuePolicy}
use atlas_simulator.Io.Trace.{TraceWriter}
use atlas_simulator.Engine.Simulator.{Simulator, make_simulator, run}
use atlas_simulator.Engine.Simulator.Ledger.{count}
use atlas_simulator.Engine.Simulator.Invariant.{Same}
use atlas_simulator.Engine.Simulator.Boards.{spec_of, capacity_of}
use atlas_simulator.Engine.Simulator.Drain.{HeadBlocked}
use atlas_simulator.Engine.Simulator.Seed.{CanRun, IsUnused}
use atlas_simulator.Engine.Simulator.Outcome.{HasRunOrWaits, run-Outcome}

-- Each job's request is within the capacity of some node.
abbrev pub EachFitsAlone : Cluster → List Job → Type 0
EachFitsAlone cluster jobs =
    (id : ℕ) (j : Job)
    → get_elem? jobs id ≡ some j
    → (k : ℕ) × (n : Node) × (get_elem? cluster.nodes k ≡ some n)
      × (j.request.cores ≤ n.capacity.cores)
      × (j.request.memory_mb ≤ n.capacity.memory_mb)

can_fit_unused :
    (n : Node) (r : Resources)
    → IsUnused n
    → r.cores ≤ n.capacity.cores
    → r.memory_mb ≤ n.capacity.memory_mb
    → can_fit n r ≡ true
unfolding can_fit
can_fit_unused n r (cores, memory, number) c m = ground (arith, cores, memory)

-- A blocked head contradicts nodes that are all unused.
none_waits :
    (s final : Simulator)
    → Same s final
    → EachFitsAlone s.cluster s.jobs
    → All IsUnused final.cluster.nodes
    → (pending : List ℕ) → HeadBlocked final.jobs final.cluster.nodes pending
    → pending ≡ []
none_waits s final same each unused [] blocked = refl
none_waits s final same each unused (id ∷ ids) (j, at, refused) =
    let (i, there, like) = map-same_get spec_of final.jobs s.jobs id j same.specs at in
    let (k, n, place, cores, memory) = each id i there in
    let (n', place', capacity) =
      map-same_get capacity_of s.cluster.nodes final.cluster.nodes k n (sym same.capacities)
        place in
    let asks : i.request ≡ j.request = ap (λ (x : Job). x.request) like in
    let fits : can_fit n' j.request ≡ true =
      can_fit_unused n' j.request (All-get_elem? IsUnused final.cluster.nodes k unused place')
        (omega (
          arith,
          ap (λ (r : Resources). r.cores) asks,
          ap (λ (r : Resources). r.cores) capacity,
          cores,
        ))
        (omega (
          arith,
          ap (λ (r : Resources). r.memory_mb) asks,
          ap (λ (r : Resources). r.memory_mb) capacity,
          memory,
        )) in
    let no_fit =
      All-get_elem? (λ n. can_fit n j.request ≡ false) final.cluster.nodes k refused place' in
    cc

settled_done :
    (s : Simulator) (id : ℕ) (j : Job) → s.pending ≡ [] → HasRunOrWaits s id j → j.state ≡ done
settled_done s id j none_left (inl h) = h.0
settled_done s id j none_left (inr h) = absurd (omega (arith, ap (count id) none_left, h.1))

-- The run comes back with every job done.
pub record Completes (s0 : Simulator) (r : Option Simulator) : Type 0 where
  pub final : Simulator
  pub result : r ≡ some final
  pub specs : map spec_of final.jobs ≡ map spec_of s0.jobs
  pub none_waiting : final.pending ≡ []
  pub all_done : (id : ℕ) (j : Job) → get_elem? final.jobs id ≡ some j → j.state ≡ done

module _ (cluster : Cluster) (jobs : List Job) (trace : Option TraceWriter)
    (scheduler : Option Scheduler) (policy : Option QueuePolicy)
    (h : CanRun cluster jobs scheduler) where
  -- A simulator that is built from an unused cluster and at least one queued job, both numbered
  -- from 0 on, with any placement policy, queue policy and trace, and with room on the clock for
  -- the service time of all jobs after the last arrival: if each job's request is within the
  -- capacity of some node, `run` comes back with no job waiting and every job done. The jobs are
  -- the ones that the simulator was built with, up to what it writes.
  pub run-Completes :
      EachFitsAlone cluster jobs
      → Completes
          (make_simulator cluster jobs trace scheduler policy)
          (run (make_simulator cluster jobs trace scheduler policy))
  unfolding make_simulator
  run-Completes each =
      let o = run-Outcome cluster jobs trace scheduler policy h in
      let none_left =
        none_waits _ o.final o.same each o.nodes_unused o.final.pending o.head_blocked in
      record {
        final = o.final;
        result = o.result;
        specs = o.same.specs;
        none_waiting = none_left;
        all_done = λ id j at. settled_done o.final id j none_left (o.jobs_settled id j at);
      }

pub length-map : {A B : Type 0} (f : A → B) (xs : List A) → length (map f xs) ≡ length xs
length-map f [] = refl
length-map f (x ∷ xs) = ap suc (length-map f xs)
