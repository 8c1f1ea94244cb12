-- ===== src/Engine/Simulator/Course.antt =====
-- Whole runs of src/atlas/engine/simulator.cpp: their course on the board, their end, and the jobs
-- that went ahead of a blocked head.
use atlas_simulator.Prelude.{
  ℕ, suc, ◌+◌, ◌≤◌, ◌≡◌, refl, ap, subst, ◌∙◌, ◌⊎◌, inl, inr, List, [], ◌∷◌, Option, none, some,
  arith, All, All-intro, All-get_elem?, sum_of, get_elem?, map,
}
use atlas_simulator.Model.Types.{Resources, Job, queued, done}
use atlas_simulator.Model.Cluster.{Cluster}
use atlas_simulator.Sched.Place.{Scheduler}
use atlas_simulator.Sched.Queue.{QueuePolicy, fifo}
use atlas_simulator.Io.Trace.{TraceWriter}
use atlas_simulator.Engine.Events.{no_events}
use atlas_simulator.Engine.Board.{
  waiting, finished, cores_in, memory_in, share, load, Steps, still, Steps-trans,
}
use atlas_simulator.Engine.Board.Capacity.{IsWithin, Course, Steps-Course}
use atlas_simulator.Engine.Simulator.{Simulator, make_simulator, seed, run}
use atlas_simulator.Engine.Simulator.Boards.{board, rules, place_of, placed, spec_of}
use atlas_simulator.Engine.Simulator.Horizon.{EndsBy, unstarted}
use atlas_simulator.Engine.Simulator.Invariant.{rules-Same}
use atlas_simulator.Engine.Simulator.Loop.{Reached, arrived, round}
use atlas_simulator.Engine.Simulator.Seed.{CanRun}
use atlas_simulator.Engine.Simulator.Arrivals.{seed_lem, seed_queue, seed_trace, seed-All}
use atlas_simulator.Engine.Simulator.Outcome.{run-Ran}
use atlas_simulator.Engine.Simulator.Complete.{EachFitsAlone, run-Completes}

-- What all rounds together come to.
record Leads (s t : Simulator) : Type 0 where
  policy : t.queue_policy ≡ s.queue_policy
  in_order : s.queue_policy ≡ fifo → t.backfilled ≡ s.backfilled
  bounded :
      (limit : ℕ) → EndsBy limit s.now s.jobs s.queue.heap → EndsBy limit t.now t.jobs t.queue.heap
  steps : Steps (rules s.jobs s.cluster.nodes) (board t.now t.jobs) (board s.now s.jobs)

Reached-Leads : (t s : Simulator) → Reached t s → Leads s t
Reached-Leads t s (arrived v) = record {
  policy = refl;
  in_order = λ e. refl;
  bounded = λ limit h. h;
  steps = still;
}
Reached-Leads t s (round _ next v same a path) =
    let rest = Reached-Leads t next path in
    record {
      policy = rest.policy ∙ a.policy;
      in_order = λ e. rest.in_order (a.policy ∙ e) ∙ a.in_order e;
      bounded = λ limit h. rest.bounded limit (a.bounded limit h);
      steps = Steps-trans _ _ (board next.now next.jobs) _ a.steps (
          subst (λ r. Steps r (board t.now t.jobs) (board next.now next.jobs))
            (rules-Same s next same) rest.steps);
    }

-- Nothing has been granted while all jobs wait.
load_waiting :
    (g : Resources → ℕ) (k : ℕ) (js : List Job)
    → All (λ j. j.state ≡ queued) js
    → load g k (map spec_of js) (map place_of js) ≡ 0
load_waiting g k [] h = refl
load_waiting g k (j ∷ js) h =
    let here : share g k (spec_of j) (place_of j) ≡ 0 =
      ap (λ state. share g k (spec_of j) (placed state j.node j.start_time)) h.0 in
    omega (arith, here, load_waiting g k js h.1)

all_waiting :
    (js : List Job)
    → All (λ (j : Job). j.state ≡ queued) js
    → All (λ p. p ≡ waiting) (map place_of js)
all_waiting [] h = tt
all_waiting (j ∷ js) h = (ap (λ x. placed x j.node j.start_time) h.0, all_waiting js h.1)

all_finished_of :
    (js : List Job)
    → ((id : ℕ) (j : Job) → get_elem? js id ≡ some j → j.state ≡ done)
    → All (λ p. p ≡ finished) (map place_of js)
all_finished_of [] h = tt
all_finished_of (j ∷ js) h = (
  ap (λ x. placed x j.node j.start_time) (h 0 j refl),
  all_finished_of js (λ id i at. h (suc id) i at),
)

abbrev pub durations : List Job → ℕ
durations = sum_of λ (j : Job). j.duration

unstarted_all :
    (js : List Job) → All (λ (j : Job). j.state ≡ queued) js → unstarted js ≡ durations js
unstarted_all [] h = refl
unstarted_all (j ∷ js) h = ground (arith, h.0, unstarted_all js h.1)

-- The run as a course on the board: it begins with all jobs waiting, and ends with none on a node.
pub record Follows (jobs : List Job) (cluster : Cluster) (r : Option Simulator) : Type 0 where
  pub final : Simulator
  pub result : r ≡ some final
  pub course :
      Course (rules jobs cluster.nodes) (board final.sim_end_time final.jobs) (board 0 jobs)
  pub all_wait : All (λ p. p ≡ waiting) (board 0 jobs).places
  pub all_finished : All (λ p. p ≡ finished) (board final.sim_end_time final.jobs).places

pub record StopsBy (limit : ℕ) (r : Option Simulator) : Type 0 where
  pub final : Simulator
  pub result : r ≡ some final
  pub by_then : final.sim_end_time ≤ limit

pub record KeepsOrder (r : Option Simulator) : Type 0 where
  pub final : Simulator
  pub result : r ≡ some final
  pub none_ahead : final.backfilled ≡ 0

module _ (cluster : Cluster) (jobs : List Job) (trace : Option TraceWriter)
    (scheduler : Option Scheduler) (policy : Option QueuePolicy)
    (h : CanRun cluster jobs scheduler) where
  abbrev built : Simulator
  built = make_simulator cluster jobs trace scheduler policy

  abbrev begun : Simulator
  begun = record built { queue = seed_queue jobs built.queue; trace = seed_trace jobs built.trace }

  begun-Leads : Leads begun (run-Ran cluster jobs trace scheduler policy h).idle
  begun-Leads =
      let ran = run-Ran cluster jobs trace scheduler policy h in
      subst (λ s. Leads s ran.idle) (seed_lem jobs built)
        (Reached-Leads ran.idle (seed jobs built) ran.path)

  none_granted : IsWithin (rules jobs cluster.nodes) (board 0 jobs)
  none_granted = λ k capacity at. (
    omega (arith, load_waiting cores_in k jobs h.all_queued),
    omega (arith, load_waiting memory_in k jobs h.all_queued),
  )

  -- A simulator that is built from an unused cluster and at least one queued job, both numbered
  -- from 0 on, with any placement policy, queue policy and trace, with room on the clock for the
  -- service time of all jobs after the last arrival, and with each job's request within the capacity
  -- of some node: `run` comes back, and refines a course on the board. The course begins at 0 with
  -- all jobs waiting and ends at the end of the run with all finished. By its steps, time passes
  -- only up to the end of a service, a job begins after its submission, on a node with room for it
  -- beside the jobs there, and ends there when it was served in full. At every board of the course
  -- no node is granted more than its capacity.
  pub run-Follows : EachFitsAlone cluster jobs → Follows jobs cluster (run built)
  unfolding make_simulator
  run-Follows each =
      let ran = run-Ran cluster jobs trace scheduler policy h in
      let t = ran.idle in
      let e = ran.ended in
      let c = run-Completes cluster jobs trace scheduler policy h each in
      let same : c.final ≡ ran.final = cc (c.result, ran.result) in
      let all_done =
        subst
          (λ (s : Simulator). (id : ℕ) (j : Job) → get_elem? s.jobs id ≡ some j → j.state ≡ done)
          same c.all_done in
      let at_end : board t.now t.jobs ≡ board ran.final.sim_end_time ran.final.jobs =
        rw (e.end_time, e.jobs) refl in
      record {
        final = ran.final;
        result = ran.result;
        course =
            subst (λ b. Course (rules jobs cluster.nodes) b (board 0 jobs)) at_end
              (Steps-Course _ (board t.now t.jobs) _ begun-Leads.steps none_granted);
        all_wait = all_waiting jobs h.all_queued;
        all_finished = all_finished_of ran.final.jobs all_done;
      }

  -- A simulator that is built from an unused cluster and at least one queued job, both numbered
  -- from 0 on, with any placement policy, queue policy and trace, and with room on the clock for
  -- the service time of all jobs after the last arrival: `run` comes back, and its end is no later
  -- than any time by which all jobs are submitted plus the service time of all jobs.
  pub run-StopsBy :
      (last : ℕ)
      → All (λ (j : Job). j.submit_time ≤ last) jobs
      → StopsBy (last + durations jobs) (run built)
  unfolding make_simulator
  run-StopsBy last submitted =
      let ran = run-Ran cluster jobs trace scheduler policy h in
      let total = unstarted_all jobs h.all_queued in
      let limit = last + durations jobs in
      let first : EndsBy limit 0 jobs (seed_queue jobs no_events).heap = (
        omega (arith, total),
        seed-All (λ e. e.time + unstarted jobs ≤ limit) jobs no_events
            (All-intro _ jobs (λ id j at seq. omega (
              arith,
              total,
              All-get_elem? (λ (j : Job). j.submit_time ≤ last) jobs id submitted at,
            )))
            tt,
      ) in
      record {
        final = ran.final;
        result = ran.result;
        by_then = omega (arith, ran.ended.end_time, (begun-Leads.bounded limit first).0);
      }

  -- A simulator that is built from an unused cluster and at least one queued job, both numbered
  -- from 0 on, with any placement policy and trace, and with room on the clock for the service time
  -- of all jobs after the last arrival: with the queue policy fifo, or with none, which stands for
  -- fifo, `run` comes back with a count of 0 jobs that started ahead of a blocked head.
  pub run-KeepsOrder : (policy ≡ none) ⊎ (policy ≡ some fifo) → KeepsOrder (run built)
  unfolding make_simulator
  run-KeepsOrder named =
      let ran = run-Ran cluster jobs trace scheduler policy h in
      let is_fifo : begun.queue_policy ≡ fifo = elim named [
        | inl e ↦ rw e refl
        | inr e ↦ rw e refl
      ] in
      record {
        final = ran.final;
        result = ran.result;
        none_ahead = ran.ended.ahead ∙ begun-Leads.in_order is_fifo;
      }
