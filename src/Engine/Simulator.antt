-- ===== src/Engine/Simulator.antt =====
-- src/atlas/engine/simulator.hpp and simulator.cpp. A step that fails an assertion, or that reads
-- outside a vector, has the value `none`.
pub mod Tests
pub mod Ledger
pub mod Times
pub mod Spent
pub mod Start
pub mod Invariant
pub mod Placing
pub mod Views
pub mod Drain
pub mod Picks
pub mod Finish
pub mod Events
pub mod Popped
pub mod Run
pub mod Loop
pub mod Seed
pub mod Arrivals
pub mod Outcome
pub mod Complete
pub mod Held
pub mod Boards
pub mod Horizon
pub mod Usage
pub mod Punctual
pub mod Metering
pub mod Integral
pub mod Course
pub mod Readings
pub mod Drawn
pub mod Fresh
pub mod Mean
use atlas_simulator.Prelude.{
  ℕ, zero, suc, ◌*◌, ◌+◌, ◌≡◌, Bool, true, false, not, List, [], ◌∷◌, ◌++◌, Option, none, some,
  ◌==◌, if◌then◌else◌, get_elem?, set, length, assert, ◌>>=◌, ◌>>◌, add64, leb,
}
use mathlib.Core.Option
use atlas_simulator.Model.Types.{
  Resources, Node, Job, JobState, queued, running as is_on_node, done, never,
}
use atlas_simulator.Model.Cluster.{Cluster, allocate, release, total_utilized}
use atlas_simulator.Sched.Place.{Scheduler, first_fit, place}
use atlas_simulator.Sched.Queue.{QueuedJob, RunningJob, QueuePolicy, fifo, pick}
use atlas_simulator.Metrics.Utilization.{UtilizationIntegral, no_utilization, advance}
use atlas_simulator.Io.Trace.{TraceWriter, write, job_spec, placement}
use atlas_simulator.Engine.Events.{
  EventPayload, job_arrival, job_finish, sim_end, Event, EventQueue, no_events, schedule, pop,
}

pub record Simulator : Type 0 where
  pub cluster : Cluster
  pub jobs : List Job
  pub pending : List ℕ
  pub queue : EventQueue
  pub now : ℕ
  pub util : UtilizationIntegral
  pub sim_end_time : ℕ
  pub trace : Option TraceWriter
  pub scheduler : Scheduler
  pub queue_policy : QueuePolicy
  pub running : List ℕ
  pub backfilled : ℕ

unfoldable pub make_simulator :
    Cluster → List Job → Option TraceWriter → Option Scheduler → Option QueuePolicy → Simulator
make_simulator cluster jobs trace scheduler queue_policy = record {
  cluster = cluster;
  jobs = jobs;
  pending = [];
  queue = no_events;
  now = 0;
  util = no_utilization;
  sim_end_time = never;
  trace = trace;
  scheduler = elim scheduler [ none ↦ first_fit | some s ↦ s ];
  queue_policy = elim queue_policy [ none ↦ fifo | some p ↦ p ];
  running = [];
  backfilled = 0;
}

-- The job as `try_place` writes it.
abbrev pub start_job : Job → ℕ → ℕ → Job
start_job j now node = record j { state = is_on_node; start_time = now; node = node }

-- `try_place`, from the scheduler's answer on.
pub start_on : Simulator → ℕ → Job → Option ℕ → Option (Bool × Simulator)
start_on s id j none = some (false, s)
start_on s id j (some node) = do
  cluster ← allocate s.cluster node j.request
  some (
    true,
    record s {
      cluster = cluster;
      jobs = set s.jobs id (start_job j s.now node);
      running = s.running ++ id ∷ [];
      trace = Option.map (λ w. placement w s.now j.id node) s.trace;
      queue = schedule s.queue (add64 s.now j.duration) (job_finish j.id node);
    },
  )

unfoldable pub try_place : Simulator → ℕ → Option (Bool × Simulator)
unfolding start_on
try_place s id = do
  j ← get_elem? s.jobs id
  (node, scheduler) ← place s.scheduler j s.cluster.nodes
  start_on (record s { scheduler = scheduler }) id j node

-- `rebuild_views`: the two loops.
pub backlog_view : List Job → List ℕ → Option (List QueuedJob)
backlog_view jobs [] = some []
backlog_view jobs (id ∷ ids) = do
  j ← get_elem? jobs id
  rest ← backlog_view jobs ids
  some (
      (record {
        id = j.id;
        request = j.request;
        estimated_duration = j.estimated_duration;
        submit_time = j.submit_time;
      })
      ∷ rest)

pub running_view : List Job → List ℕ → Option (List RunningJob)
running_view jobs [] = some []
running_view jobs (id ∷ ids) = do
  j ← get_elem? jobs id
  rest ← running_view jobs ids
  some (
      (record {
        id = j.id;
        node = j.node;
        held = j.request;
        estimated_finish = add64 j.start_time j.estimated_duration;
      })
      ∷ rest)

-- std::find and erase; `none` is the failed assertion that the id is there.
pub erase : ℕ → List ℕ → Option (List ℕ)
erase id [] = none
erase id (x ∷ xs) = if x == id then some xs else Option.map (◌∷◌ x) (erase id xs)

-- The first loop of `drain`, over what `pending_` holds.
pub place_heads : List ℕ → Simulator → Option Simulator
place_heads [] s = some (record s { pending = [] })
place_heads (id ∷ rest) s = do
  (placed, s') ← try_place s id
  if placed then place_heads rest s' else some (record s' { pending = id ∷ rest })

-- One round of the second loop; the flag says whether the loop goes on.
pub backfill_round : Simulator → Option (Bool × Simulator)
unfolding backlog_view running_view erase
backfill_round s = do
  backlog ← backlog_view s.jobs s.pending
  runs ← running_view s.jobs s.running
  elim (pick s.queue_policy backlog s.cluster.nodes runs s.now) [
    | none ↦ some (false, s)
    | some id ↦ do
      front ← get_elem? s.pending 0
      assert (not (id == front))
      (placed, s') ← try_place s id
      assert placed
      pending ← erase id s'.pending
      some (true, record s' { pending = pending; backfilled = add64 s'.backfilled 1 })
  ]

-- The second loop, with a bound on its rounds.
pub place_behind : ℕ → Simulator → Option Simulator
place_behind zero s = none
place_behind (suc left) s = do
  (again, s') ← backfill_round s
  let rest = place_behind left s'
  if again then rest else some s'

unfoldable pub drain : Simulator → Option Simulator
unfolding place_heads place_behind backfill_round
drain s = do
  s' ← place_heads s.pending s
  elim s'.pending [ [] ↦ some s' | id ∷ ids ↦ place_behind (length s'.pending) s' ]

unfoldable pub on_arrival : Simulator → ℕ → Option Simulator
unfolding drain
on_arrival s job = drain (record s { pending = s.pending ++ job ∷ [] })

unfoldable pub on_sim_end : Simulator → Option Simulator
on_sim_end s = do
  util ← advance s.util s.now (total_utilized s.cluster)
  some (record s { util = util; sim_end_time = s.now })

abbrev pub is_running : JobState → Bool
is_running is_on_node = true
is_running _ = false

unfoldable pub on_finish : Simulator → ℕ → ℕ → Option Simulator
unfolding drain erase
on_finish s job node = do
  j ← get_elem? s.jobs job
  assert (is_running j.state)
  assert (j.node == node)
  cluster ← release s.cluster j.node j.request
  running ← erase job s.running
  drain (record s {
    cluster = cluster;
    jobs = set s.jobs job (record j { finish_time = s.now; state = done });
    running = running;
  })

-- The visitor; the flag is `should_end`.
pub visit : Simulator → EventPayload → Option (Bool × Simulator)
unfolding on_arrival on_finish on_sim_end
visit s (job_arrival job) = do s' ← on_arrival s job; some (false, s')
visit s (job_finish job node) = do s' ← on_finish s job node; some (false, s')
visit s sim_end = do s' ← on_sim_end s; some (true, s')

-- `if (queue_.empty()) queue_.schedule(now_, SimEnd{})`
pub end_if_idle : Simulator → Simulator
end_if_idle s = elim s.queue.heap [
  | [] ↦ record s { queue = schedule s.queue s.now sim_end }
  | _ ∷ _ ↦ s
]

-- The body of the loop of `run`; the flag is false where it breaks.
pub run_round : Simulator → Option (Bool × Simulator)
unfolding visit end_if_idle
run_round s = do
  (e, queue) ← pop s.queue
  assert (leb s.now e.time)
  util ← advance s.util e.time (total_utilized s.cluster)
  (should_end, s') ←
      visit
        (record s {
          queue = queue;
          now = e.time;
          trace = Option.map (λ w. write w e) s.trace;
          util = util;
        })
        e.payload
  if should_end then some (false, s') else some (true, end_if_idle s')

-- `while (!queue_.empty())`, with a bound on its rounds.
pub run_loop : ℕ → Simulator → Option Simulator
run_loop zero s = none
run_loop (suc left) s = elim s.queue.heap [
  | [] ↦ some s
  | _ ∷ _ ↦ do
    (again, s') ← run_round s
    let rest = run_loop left s'
    if again then rest else some s'
]

-- The first loop of `run`.
pub seed : List Job → Simulator → Simulator
seed [] s = s
seed (j ∷ js) s = seed js (record s {
  queue = schedule s.queue j.submit_time (job_arrival j.id);
  trace = Option.map (λ w. job_spec w j) s.trace;
})

unfoldable pub run : Simulator → Option Simulator
unfolding seed run_loop run_round
run s = run_loop (2 * length s.jobs + 2) (seed s.jobs s)
