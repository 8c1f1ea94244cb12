-- ===== src/Engine/Simulator/Outcome.antt =====
-- The whole of `run` in src/atlas/engine/simulator.cpp, from the constructor to the end.
use atlas_simulator.Prelude.{
  ℕ, ◌+◌, ◌*◌, ◌<◌, ◌≡◌, refl, ap, sym, subst, ◌∙◌, ◌⊎◌, inl, inr, List, [], Option, some, arith,
  All, All-intro, List-cases, get_elem?, get_elem?-in, length, map,
}
use atlas_simulator.Model.Types.{Job, JobState, queued, running as is_on_node, done}
use atlas_simulator.Model.Cluster.{Cluster}
use atlas_simulator.Sched.Place.{Scheduler}
use atlas_simulator.Sched.Queue.{QueuePolicy}
use atlas_simulator.Io.Trace.{TraceWriter}
use atlas_simulator.Engine.Simulator.{Simulator, make_simulator, seed, run}
use atlas_simulator.Engine.Simulator.Ledger.{count, Phase, Books, finishes, arrivals}
use atlas_simulator.Engine.Simulator.Start.{is_one}
use atlas_simulator.Engine.Simulator.Invariant.{Same}
use atlas_simulator.Engine.Simulator.Boards.{spec_of, capacity_of}
use atlas_simulator.Engine.Simulator.Drain.{HeadBlocked}
use atlas_simulator.Engine.Simulator.Run.{IsIdle}
use atlas_simulator.Engine.Simulator.Loop.{Ran, run_loop-Ran}
use atlas_simulator.Engine.Simulator.Seed.{
  CanRun, IsUnused, seeded-Inv, seeded-work, seeded-full, seeded-Same,
}

-- A job has run, or it still waits, listed once.
abbrev pub HasRunOrWaits : Simulator → ℕ → Job → Type 0
HasRunOrWaits s id j =
    ((j.state ≡ done) × (count id s.pending ≡ 0)) ⊎ ((j.state ≡ queued) × (count id s.pending ≡ 1))

-- The run of `s0` comes back, and what it leaves.
pub record Outcome (s0 : Simulator) (r : Option Simulator) : Type 0 where
  pub final : Simulator
  pub result : r ≡ some final
  pub same : Same s0 final
  pub no_events_left : final.queue.heap ≡ []
  pub none_running : final.running ≡ []
  pub nodes_unused : All IsUnused final.cluster.nodes
  pub jobs_settled :
      (id : ℕ) (j : Job) → get_elem? final.jobs id ≡ some j → HasRunOrWaits final id j
  pub head_blocked : HeadBlocked final.jobs final.cluster.nodes final.pending
  pub waiting_known : All (λ id. id < length final.jobs) final.pending
  pub ends_now : final.sim_end_time ≡ final.now
  pub accounted : final.util.last_checkin ≡ final.now

Phase-idle :
    (state : JobState) (w o : ℕ)
    → Phase state 0 w o 0
    → ((state ≡ done) × (w ≡ 0)) ⊎ ((state ≡ queued) × (w ≡ 1))
Phase-idle queued w o p = inr (refl, omega arith)
Phase-idle is_on_node w o p = absurd (omega arith)
Phase-idle done w o p = inl (refl, omega arith)

Phase-listed : (state : JobState) (w o : ℕ) → Phase state 0 w o 0 → o ≡ 0
Phase-listed queued w o p = omega arith
Phase-listed is_on_node w o p = absurd (omega arith)
Phase-listed done w o p = omega arith

module _ (t : Simulator) (h : IsIdle t) where
  IsIdle-Phase :
      (id : ℕ) (j : Job)
      → get_elem? t.jobs id ≡ some j
      → Phase j.state 0 (count id t.pending) (count id t.running) 0
  IsIdle-Phase id j at =
      subst
        (λ heap.
          Phase j.state (arrivals id heap) (count id t.pending) (count id t.running)
            (finishes id heap))
        h.empty (h.inv.counts.phases id j at)

  -- With no finish to come, no job is on a node.
  idle_running : t.running ≡ []
  idle_running = elim (List-cases t.running) [
    | inl e ↦ e
    | inr (id, on, e) ↦
        let inside : id < length t.jobs =
          (subst (All (λ id. id < length t.jobs)) e h.inv.counts.on_in).0 in
        let (j, at) = get_elem?-in t.jobs id inside in
        absurd (
          omega
            (arith, Phase-listed j.state _ _ (IsIdle-Phase id j at), ap (count id) e, is_one id))
  ]

  idle-IsUnused : All IsUnused t.cluster.nodes
  idle-IsUnused = All-intro IsUnused t.cluster.nodes (λ k n at.
      let b : Books n k t.jobs [] =
        subst (Books n k t.jobs) idle_running (h.inv.nodes_inv.books k n at) in
      (omega (arith, b.cores), omega (arith, b.memory), b.number))

  idle_settled : (id : ℕ) (j : Job) → get_elem? t.jobs id ≡ some j → HasRunOrWaits t id j
  idle_settled id j at = Phase-idle j.state _ _ (IsIdle-Phase id j at)

Outcome-of : (s0 s : Simulator) (r : Option Simulator) → Same s0 s → Ran s r → Outcome s0 r
Outcome-of s0 s r built ran =
    let f = ran.final in
    let t = ran.idle in
    let e = ran.ended in
    record {
      final = f;
      result = ran.result;
      same = record {
        specs = ap (map spec_of) e.jobs ∙ (ran.same.specs ∙ built.specs);
        capacities =
            ap (λ (c : Cluster). map capacity_of c.nodes) e.cluster
            ∙ (ran.same.capacities ∙ built.capacities);
      };
      no_events_left = e.empty;
      none_running = e.running ∙ idle_running t ran.is_idle;
      nodes_unused =
          subst (λ (c : Cluster). All IsUnused c.nodes) (sym e.cluster)
            (idle-IsUnused t ran.is_idle);
      jobs_settled = rw (e.jobs, e.pending) (idle_settled t ran.is_idle);
      head_blocked = rw (e.jobs, e.cluster, e.pending) ran.is_idle.blocked;
      waiting_known = rw (e.jobs, e.pending) ran.is_idle.inv.counts.pend_in;
      ends_now = e.end_time ∙ sym e.now;
      accounted = e.checked ∙ sym e.now;
    }

module _ (cluster : Cluster) (jobs : List Job) (trace : Option TraceWriter)
    (scheduler : Option Scheduler) (policy : Option QueuePolicy)
    (h : CanRun cluster jobs scheduler) where
  -- The two loops of `run`, one after the other.
  pub run-Ran :
      Ran
        (seed jobs (make_simulator cluster jobs trace scheduler policy))
        (run (make_simulator cluster jobs trace scheduler policy))
  unfolding run make_simulator
  run-Ran =
      run_loop-Ran (2 * length jobs + 2) _ (seeded-Inv cluster jobs trace scheduler policy h)
        (seeded-full cluster jobs trace scheduler policy h)
        (omega (arith, seeded-work cluster jobs trace scheduler policy h))

  -- A simulator that is built from an unused cluster and at least one queued job, both numbered
  -- from 0 on, with any placement policy, queue policy and trace, and with room on the clock for
  -- the service time of all jobs after the last arrival: `run` comes back, and no assertion
  -- fails and no vector is read out of bounds on the way. In the state that it leaves there are
  -- no events, no job is running, each node has all of its capacity free again, each job is
  -- done or waits and is listed once, the job at the head of the waiting ones, if there is one,
  -- fits on no node, and the recorded end and the utilization integral stand at the clock. The
  -- jobs and the nodes are the ones that the simulator was built with, up to what it writes.
  pub run-Outcome :
      Outcome
        (make_simulator cluster jobs trace scheduler policy)
        (run (make_simulator cluster jobs trace scheduler policy))
  run-Outcome = Outcome-of _ _ _ (seeded-Same cluster jobs trace scheduler policy) run-Ran
