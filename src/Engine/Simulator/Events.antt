-- ===== src/Engine/Simulator/Events.antt =====
-- One round of the loop of `run` in src/atlas/engine/simulator.cpp, while jobs are under way.
use atlas_simulator.Prelude.{
  inl, inr, ℕ, suc, ◌+◌, ◌≤◌, ◌≡◌, refl, ap, sym, subst, ◌∙◌, [], ◌∷◌, ◌++◌, Option, some, arith,
  ==_iff, get_elem?, get_elem?-in, set, length-set, map-set_same, ◌>>=◌,
}
use atlas_simulator.Model.Types.{Resources, Node, Job}
use atlas_simulator.Model.Cluster.{give_back}
use atlas_simulator.Model.Cluster.Moves.{release-eq-some}
use atlas_simulator.Metrics.Utilization.{UtilizationIntegral}
use atlas_simulator.Sched.Place.Any.{IsReady}
use atlas_simulator.Io.Trace.{TraceWriter}
use atlas_simulator.Sched.Queue.{fifo}
use atlas_simulator.Engine.Events.{job_arrival, job_finish}
use atlas_simulator.Engine.Events.Order.{Popped}
use atlas_simulator.Engine.Board.{Step, Steps, more}
use atlas_simulator.Engine.Simulator.{Simulator, on_arrival, on_finish, is_running}
use atlas_simulator.Engine.Simulator.Ledger.{
  is, arrivals, finishes, arrivals_in, finishes_in, PayloadMatches, ClockInv, PayloadTimes,
}
use atlas_simulator.Engine.Simulator.Times.{due, within}
use atlas_simulator.Engine.Simulator.Horizon.{EndsBy, EndsBy-pop, EndsBy-finish}
use atlas_simulator.Engine.Simulator.Spent.{spent, spent-finish}
use atlas_simulator.Engine.Simulator.Start.{is_one}
use atlas_simulator.Engine.Simulator.Finish.{
  finish_job, JobsInv-finish, NodesInv-finish, Counts-finish, ClockInv-finish, SeqInv-finish,
  can_release,
}
use atlas_simulator.Engine.Simulator.Invariant.{rules-Same, Inv, Same, arrival_one, work_left}
use atlas_simulator.Engine.Simulator.Boards.{
  spec_of, capacity_of, board, rules, pass-Step, finish-Step,
}
use atlas_simulator.Engine.Simulator.Views.{erase_lem}
use atlas_simulator.Engine.Simulator.Drain.{drain-Drained, HeadBlocked}
use atlas_simulator.Engine.Simulator.Popped.{
  ClockInv-pop, Counts-arrive, Phase-ending, SeqInv-pop, undone_after,
}

-- A round that handled an event other than the end of the simulation.
pub record Handled (s : Simulator) (time : ℕ) (util : UtilizationIntegral) (r : Option Simulator)
    : Type 0 where
  pub next : Simulator
  pub result : r ≡ some next
  pub inv : Inv next next.pending
  pub work : suc (work_left next) ≡ work_left s
  pub now : next.now ≡ time
  pub meter : next.util ≡ util
  pub spent_same : (g : Resources → ℕ) → spent g next.now next.jobs ≡ spent g time s.jobs
  pub policy : next.queue_policy ≡ s.queue_policy
  pub in_order : s.queue_policy ≡ fifo → next.backfilled ≡ s.backfilled
  pub bounded :
      (limit : ℕ)
      → EndsBy limit s.now s.jobs s.queue.heap
      → EndsBy limit next.now next.jobs next.queue.heap
  pub steps : Steps (rules s.jobs s.cluster.nodes) (board next.now next.jobs) (board s.now s.jobs)
  pub blocked : HeadBlocked next.jobs next.cluster.nodes next.pending
  pub same : Same s next

give_back-capacity : (n : Node) (q : Resources) → capacity_of (give_back n q) ≡ capacity_of n
unfolding give_back
give_back-capacity n q = refl

module _ (s : Simulator) (v : Inv s s.pending) (p : Popped s.queue) (trace : Option TraceWriter)
    (util : UtilizationIntegral) (checked : util.last_checkin ≡ p.event.time) where
  -- The state as `run` hands it to the visitor.
  abbrev pub popped : Simulator
  popped = record s { queue = p.rest; now = p.event.time; trace = trace; util = util }

  clock_after : ClockInv p.event.time util.last_checkin s.jobs p.rest.heap
  clock_after = rw checked (ClockInv-pop s.now s.util.last_checkin s.jobs s.queue p v.clock)

  -- No service ends before the event.
  passes : Step (rules s.jobs s.cluster.nodes) (board s.now s.jobs) (board p.event.time s.jobs)
  passes =
      let (mine, others) =
        p.all (λ e. PayloadTimes s.jobs e.time e.payload) v.clock.times.events_timed in
      pass-Step s.now p.event.time s.jobs s.cluster.nodes s.pending s.running s.queue.heap
        (p.all (λ e. s.now ≤ e.time) v.clock.to_come).0
        (λ id j at ending. elim (due s.jobs id j p.event.time p.event.payload at mine) [
          | inl none_here ↦
              within p.event.time s.jobs id j p.rest.heap at clock_after.to_come others
                (omega (arith, p.sums (λ e. finishes_in id e.payload), none_here))
          | inr ends ↦ omega (arith, ends)
        ])
        v.counts

  pub on_arrival-Handled :
      (id : ℕ)
      → p.event.payload ≡ job_arrival id
      → Handled s p.event.time util (on_arrival popped id)
  unfolding on_arrival
  on_arrival-Handled id names =
      let s2 : Simulator = record s {
        queue = p.rest;
        now = p.event.time;
        trace = trace;
        util = util;
        pending = s.pending ++ id ∷ [];
      } in
      let v2 : Inv s2 s2.pending = record {
        jobs_inv = v.jobs_inv;
        nodes_inv = v.nodes_inv;
        counts = Counts-arrive s.jobs s.pending s.running s.queue p id names v.counts;
        clock = clock_after;
        seqs = SeqInv-pop s.queue s.jobs p v.seqs;
        ready = v.ready;
      } in
      let d = drain-Drained s2 v2 in
      record {
        next = d.next;
        result = d.result;
        inv = d.inv;
        work =
            omega (arith, d.keeps.work, p.sums (λ e. arrival_one e.payload), ap arrival_one names);
        now = d.keeps.now;
        meter = d.keeps.util;
        spent_same = d.keeps.spent_same;
        policy = d.keeps.policy;
        in_order = d.keeps.in_order;
        bounded = λ limit r. d.keeps.bounded limit (EndsBy-pop limit s.now s.jobs s.queue p r);
        steps = more _ _ passes d.keeps.steps;
        blocked = d.blocked;
        same = record { specs = d.keeps.same.specs; capacities = d.keeps.same.capacities };
      }

  -- The job that a finish event names runs on the node that it names.
  module _ (id node : ℕ) (names : p.event.payload ≡ job_finish id node) where
    ends_in : (x : ℕ) → finishes x s.queue.heap ≡ is x id + finishes x p.rest.heap
    ends_in x = omega (arith, p.sums (λ e. finishes_in x e.payload), ap (finishes_in x) names)

    arrives_in : (x : ℕ) → arrivals x s.queue.heap ≡ arrivals x p.rest.heap
    arrives_in x = omega (arith, p.sums (λ e. arrivals_in x e.payload), ap (arrivals_in x) names)

    finish_body :
        (j : Job)
        → get_elem? s.jobs id ≡ some j
        → j.node ≡ node
        → Handled s p.event.time util (on_finish popped id node)
    unfolding on_finish
    finish_body j at on_it =
        let (runs, once) =
          Phase-ending j.state _ _ _ _ (v.counts.phases id j at)
            (omega (arith, ends_in id, is_one id)) in
        let (n, there) = get_elem?-in s.cluster.nodes j.node (v.nodes_inv.placed id j at runs) in
        let (on', erased, r) = erase_lem id s.running (omega (arith, once)) in
        let ok =
          can_release s.jobs s.running on' id j p.event.time at runs r once s.cluster.nodes n there
            v.jobs_inv v.counts.on_number v.nodes_inv in
        let freed = release-eq-some s.cluster j.node j.request n there ok in
        let ends : p.event.time ≡ j.start_time + j.duration =
          subst (PayloadTimes s.jobs p.event.time) names
            (p.all (λ e. PayloadTimes s.jobs e.time e.payload) v.clock.times.events_timed).0 j at in
        let (match, matches) = p.all (λ e. PayloadMatches s.jobs e.payload) v.counts.matches in
        let s2 : Simulator = record s {
          queue = p.rest;
          now = p.event.time;
          trace = trace;
          util = util;
          cluster = record { nodes = set s.cluster.nodes j.node (give_back n j.request) };
          jobs = set s.jobs id (finish_job j p.event.time);
          running = on';
        } in
        let v2 : Inv s2 s2.pending = record {
          jobs_inv =
              JobsInv-finish s.jobs s.running on' id j p.event.time at runs r once v.jobs_inv;
          nodes_inv =
              NodesInv-finish s.jobs s.running on' id j p.event.time at runs r once s.cluster.nodes
                n there v.jobs_inv v.counts.on_number v.nodes_inv;
          counts =
              Counts-finish s.jobs s.running on' id j p.event.time at runs r once s.pending
                s.queue.heap p.rest.heap ends_in arrives_in matches v.counts;
          clock =
              ClockInv-finish s.jobs s.running on' id j p.event.time at runs r once p.event.time
                util.last_checkin p.rest.heap refl ends clock_after;
          seqs =
              SeqInv-finish s.jobs s.running on' id j p.event.time at runs r once p.rest
                (SeqInv-pop s.queue s.jobs p v.seqs);
          ready =
              subst (IsReady s.scheduler)
                (sym (length-set s.cluster.nodes j.node (give_back n j.request))) v.ready;
        } in
        let freed_same : Same s s2 = record {
          specs = map-set_same spec_of s.jobs id j _ at refl;
          capacities =
              map-set_same capacity_of s.cluster.nodes j.node n _ there
                (give_back-capacity n j.request);
        } in
        let d = drain-Drained s2 v2 in
        rw (at, ◌>>=◌)
          (rw (runs, is_running)
            (rw ((==_iff j.node node).1 on_it) (
              rw (freed, ◌>>=◌)
                (rw (erased, ◌>>=◌)
                  (record {
                    next = d.next;
                    result = d.result;
                    inv = d.inv;
                    work = omega (
                      arith,
                      d.keeps.work,
                      undone_after s.jobs id j p.event.time at runs,
                      p.sums (λ e. arrival_one e.payload),
                      ap arrival_one names,
                    );
                    now = d.keeps.now;
                    meter = d.keeps.util;
                    spent_same = λ g.
                        d.keeps.spent_same g ∙ spent-finish g p.event.time s.jobs id j at runs ends;
                    policy = d.keeps.policy;
                    in_order = d.keeps.in_order;
                    bounded = λ limit r. d.keeps.bounded limit (
                        EndsBy-finish limit p.event.time p.event.time s.jobs id j p.rest.heap at
                          runs (EndsBy-pop limit s.now s.jobs s.queue p r));
                    steps = more _ _ passes (
                        more _ _ (finish-Step p.event.time s.jobs s.cluster.nodes id j at runs ends)
                          (subst
                            (λ r.
                              Steps r (board d.next.now d.next.jobs) (board p.event.time s2.jobs))
                            (rules-Same s s2 freed_same) d.keeps.steps));
                    blocked = d.blocked;
                    same = record {
                      specs = d.keeps.same.specs ∙ freed_same.specs;
                      capacities = d.keeps.same.capacities ∙ freed_same.capacities;
                    };
                  })))))

    pub on_finish-Handled : Handled s p.event.time util (on_finish popped id node)
    on_finish-Handled =
        let match : PayloadMatches s.jobs (job_finish id node) =
          subst (PayloadMatches s.jobs) names
            (p.all (λ e. PayloadMatches s.jobs e.payload) v.counts.matches).0 in
        finish_body match.0 match.1 match.2
