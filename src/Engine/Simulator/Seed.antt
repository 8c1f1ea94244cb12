-- ===== src/Engine/Simulator/Seed.antt =====
-- The state that the constructor and the first loop of `run` in src/atlas/engine/simulator.cpp
-- leave, and what they may be given.
use atlas_simulator.Prelude.{
  ℕ, zero, suc, ◌+◌, ◌*◌, ◌≤◌, ◌<◌, ◌≡◌, refl, ap, sym, subst, ◌∙◌, ◌≢◌, inl, inr, List, [], ◌∷◌,
  Option, none, some, arith, All, All-get_elem?, All-intro, sum_of, get_elem?, get_elem?-lt,
  get_elem?-unique, length, List-cases, u32_mod, u64_mod,
}
use atlas_simulator.Model.Types.{Node, IsNode, Job, JobState, queued, running as is_on_node, done}
use atlas_simulator.Model.Cluster.{Cluster}
use atlas_simulator.Sched.Place.{Scheduler, first_fit}
use atlas_simulator.Sched.Place.Any.{IsReady}
use atlas_simulator.Sched.Queue.{QueuePolicy}
use atlas_simulator.Sched.Queue.Reserve.{HasDenseIds}
use atlas_simulator.Io.Trace.{TraceWriter}
use atlas_simulator.Engine.Events.{EventQueue, no_events}
use atlas_simulator.Engine.Events.Order.{IsQueue}
use atlas_simulator.Engine.Simulator.{Simulator, make_simulator, seed}
use atlas_simulator.Engine.Simulator.Ledger.{
  is, arrivals, finishes, arrivals_in, finishes_in, queued_one, running_one, unstarted_one,
  PayloadMatches, Phase, Books, NodesInv, Counts, ClockInv, SeqInv, PayloadTimes, JobTimes, Times,
}
use atlas_simulator.Engine.Simulator.Invariant.{Inv, Same, arrival_one, undone_one, work_left}
use atlas_simulator.Engine.Simulator.Arrivals.{
  seed-All, seed-IsQueue, seed-sums, seed_lem, seed_queue,
}

-- A node with nothing on it.
abbrev pub IsUnused : Node → Type 0
IsUnused n =
    (n.free.cores ≡ n.capacity.cores)
    × (n.free.memory_mb ≡ n.capacity.memory_mb)
    × (n.running_jobs ≡ 0)

-- What a simulator may be built from: an unused cluster and jobs that are queued, both numbered
-- from 0 on, with room on the clock for every job after the last arrival.
pub record CanRun (cluster : Cluster) (jobs : List Job) (scheduler : Option Scheduler)
    : Type 0 where
  pub some_jobs : jobs ≢ []
  pub ids : (id : ℕ) (j : Job) → get_elem? jobs id ≡ some j → j.id ≡ id
  pub few : length jobs < u32_mod
  pub all_queued : All (λ j. j.state ≡ queued) jobs
  pub room : All (λ j. j.submit_time + sum_of unstarted_one jobs < u64_mod) jobs
  pub nodes_ok : All IsNode cluster.nodes
  pub dense : HasDenseIds cluster.nodes
  pub few_nodes : length cluster.nodes < u64_mod
  pub unused : All IsUnused cluster.nodes
  pub ready : (s : Scheduler) → scheduler ≡ some s → IsReady s (length cluster.nodes)

absent_below :
    (k id : ℕ) (js : List Job)
    → ((i : ℕ) (j : Job) → get_elem? js i ≡ some j → j.id ≡ k + i)
    → id < k
    → sum_of (λ (j : Job). is id j.id) js ≡ 0
absent_below k id [] ids h = refl
absent_below k id (j ∷ js) ids h =
    let rest =
      absent_below (suc k) id js (λ i x at. omega (arith, ids (suc i) x at)) (omega arith) in
    ground (arith, rest, ids 0 j refl)

present_once :
    (k i id : ℕ) (js : List Job) (j : Job)
    → ((n : ℕ) (x : Job) → get_elem? js n ≡ some x → x.id ≡ k + n)
    → get_elem? js i ≡ some j
    → id ≡ k + i
    → sum_of (λ (x : Job). is id x.id) js ≡ 1
present_once k i id [] j ids at e = cc
present_once k zero id (x ∷ js) j ids at e =
    let rest =
      absent_below (suc k) id js (λ n y there. omega (arith, ids (suc n) y there)) (omega arith) in
    ground (arith, rest, ids 0 x refl)
present_once k (suc i) id (x ∷ js) j ids at e =
    let rest =
      present_once (suc k) i id js j (λ n y there. omega (arith, ids (suc n) y there)) at
        (omega arith) in
    ground (arith, rest, ids 0 x refl)

sums_queued :
    (js : List Job)
    → All (λ (j : Job). j.state ≡ queued) js
    → (sum_of running_one js ≡ 0)
      × (sum_of queued_one js ≡ length js)
      × (sum_of undone_one js ≡ length js)
sums_queued [] h = (refl, refl, refl)
sums_queued (j ∷ js) h =
    let (r, q, u) = sums_queued js h.1 in
    (ground (arith, h.0, r), ground (arith, h.0, q), ground (arith, h.0, u))

sum_ones : (js : List Job) → sum_of (λ (j : Job). 1) js ≡ length js
sum_ones [] = refl
sum_ones (j ∷ js) = omega (arith, sum_ones js)

sum_zeros : (js : List Job) → sum_of (λ (j : Job). 0) js ≡ 0
sum_zeros [] = refl
sum_zeros (j ∷ js) = omega (arith, sum_zeros js)

queued_not_running : (state : JobState) → state ≡ queued → state ≡ is_on_node → ⊥
queued_not_running state e r = cc

-- The job list and the cluster are still the ones of the constructor.
pub seeded-Same :
    (cluster : Cluster) (jobs : List Job) (trace : Option TraceWriter)
    (scheduler : Option Scheduler) (policy : Option QueuePolicy)
    → Same
        (make_simulator cluster jobs trace scheduler policy)
        (seed jobs (make_simulator cluster jobs trace scheduler policy))
seeded-Same cluster jobs trace scheduler policy =
    rw (seed_lem jobs (make_simulator cluster jobs trace scheduler policy))
      (record { specs = refl; capacities = refl })

module _ (cluster : Cluster) (jobs : List Job) (trace : Option TraceWriter)
    (scheduler : Option Scheduler) (policy : Option QueuePolicy)
    (h : CanRun cluster jobs scheduler) where
  abbrev built : Simulator
  built = make_simulator cluster jobs trace scheduler policy

  abbrev seeded : Simulator
  seeded = seed jobs built

  queue_after : EventQueue
  queue_after = seed_queue jobs no_events

  arrivals_after : (id : ℕ) → arrivals id queue_after.heap ≡ sum_of (λ (j : Job). is id j.id) jobs
  unfolding queue_after
  arrivals_after id = omega (
    arith,
    seed-sums (λ e. arrivals_in id e.payload) (λ (j : Job). is id j.id) jobs no_events
        (λ j seq. refl),
  )

  finishes_after : (id : ℕ) → finishes id queue_after.heap ≡ 0
  unfolding queue_after
  finishes_after id = omega (
    arith,
    seed-sums (λ e. finishes_in id e.payload) (λ (j : Job). 0) jobs no_events (λ j seq. refl),
    sum_zeros jobs,
  )

  Phase-queued : (state : JobState) (a f : ℕ) → state ≡ queued → a ≡ 1 → f ≡ 0 → Phase state a 0 0 f
  Phase-queued queued a f e one none_ends = (omega arith, refl, omega arith)
  Phase-queued is_on_node a f e one none_ends = cc
  Phase-queued done a f e one none_ends = cc

  state_of : (id : ℕ) (j : Job) → get_elem? jobs id ≡ some j → j.state ≡ queued
  state_of id j at = All-get_elem? (λ (j : Job). j.state ≡ queued) jobs id h.all_queued at

  Counts-after : Counts jobs [] [] queue_after.heap
  unfolding queue_after
  Counts-after = record {
    pend_in = tt;
    on_in = tt;
    matches =
        seed-All (λ e. PayloadMatches jobs e.payload) jobs no_events
          (All-intro _ jobs (λ id j at seq. omega (arith, get_elem?-lt jobs id at, h.ids id j at)))
          tt;
    phases = λ id j at.
        Phase-queued j.state _ _ (state_of id j at)
          (arrivals_after id
            ∙ present_once 0 id id jobs j (λ n x there. omega (arith, h.ids n x there)) at
                (omega arith))
          (finishes_after id);
    on_number = sym (sums_queued jobs h.all_queued).0;
  }

  Books-after : (k : ℕ) (n : Node) → get_elem? cluster.nodes k ≡ some n → Books n k jobs []
  Books-after k n at =
      let (cores, memory, number) = All-get_elem? IsUnused cluster.nodes k h.unused at in
      record { cores = omega (arith, cores); memory = omega (arith, memory); number = number }

  nodes_after : NodesInv cluster.nodes jobs []
  nodes_after = record {
    nodes_ok = h.nodes_ok;
    dense = h.dense;
    few = h.few_nodes;
    books = Books-after;
    placed = λ id j at runs. absurd (queued_not_running j.state (state_of id j at) runs);
  }

  JobTimes-queued :
      (state : JobState) (a : ℕ) (j : Job) → state ≡ queued → 0 < a → JobTimes state a 0 j
  JobTimes-queued queued a j e some_left = inl some_left
  JobTimes-queued is_on_node a j e some_left = cc
  JobTimes-queued done a j e some_left = cc

  Times-after : Times 0 jobs queue_after.heap
  unfolding queue_after
  Times-after = record {
    events_timed =
        seed-All (λ e. PayloadTimes jobs e.time e.payload) jobs no_events
          (All-intro _ jobs (λ id j at seq i there. sym (
            ap (λ (x : Job). x.submit_time)
              (get_elem?-unique jobs id j.id (sym (h.ids id j at)) at there))))
          tt;
    jobs_timed = λ id j at. JobTimes-queued j.state _ j (state_of id j at) (
        omega (
          arith,
          arrivals_after id,
          present_once 0 id id jobs j (λ n x there. omega (arith, h.ids n x there)) at
              (omega arith),
        ));
  }

  clock_after : ClockInv 0 0 jobs queue_after.heap
  unfolding queue_after
  clock_after = record {
    to_come =
        seed-All (λ e. 0 ≤ e.time) jobs no_events (All-intro _ jobs (λ id j at seq. omega arith))
          tt;
    event_room =
        seed-All (λ e. e.time + sum_of unstarted_one jobs < u64_mod) jobs no_events
          (All-intro _ jobs (λ id j at seq.
            All-get_elem? (λ (j : Job). j.submit_time + sum_of unstarted_one jobs < u64_mod) jobs id
              h.room at))
          tt;
    room = elim (List-cases jobs) [
      | inl none_there ↦ absurd (h.some_jobs none_there)
      | inr (j, js, e) ↦ omega (
        arith,
        All-get_elem? (λ (j : Job). j.submit_time + sum_of unstarted_one jobs < u64_mod) jobs 0
            h.room (ap (λ xs. get_elem? xs 0) e),
      )
    ];
    checked_in = omega arith;
    times = Times-after;
  }

  empty-IsQueue : IsQueue no_events
  empty-IsQueue = record { distinct = tt; given = tt }

  seqs_after : SeqInv queue_after jobs
  unfolding queue_after
  seqs_after =
      let (v, e) = seed-IsQueue jobs no_events empty-IsQueue (omega (arith, h.few)) in
      record { is_queue = v; seqs = omega (arith, e, (sums_queued jobs h.all_queued).1) }

  IsReady-after :
      (o : Option Scheduler)
      → o ≡ scheduler
      → IsReady (elim o [ none ↦ first_fit | some s ↦ s ]) (length cluster.nodes)
  IsReady-after none e = tt
  IsReady-after (some s) e = h.ready s (sym e)

  pub seeded-Inv : Inv seeded seeded.pending
  unfolding make_simulator queue_after
  seeded-Inv =
      subst (λ s. Inv s s.pending) (sym (seed_lem jobs built))
        (record {
          jobs_inv = record { ids = h.ids; few = h.few };
          nodes_inv = nodes_after;
          counts = Counts-after;
          clock = clock_after;
          seqs = seqs_after;
          ready = IsReady-after scheduler refl;
        })

  pub seeded-work : work_left seeded ≡ 2 * length jobs
  unfolding make_simulator
  seeded-work = rw (seed_lem jobs built) (
      omega (
        arith,
        seed-sums (λ e. arrival_one e.payload) (λ (j : Job). 1) jobs no_events (λ j seq. refl),
        sum_ones jobs,
        (sums_queued jobs h.all_queued).2,
      ))

  pub seeded-full : seeded.queue.heap ≢ []
  unfolding make_simulator
  seeded-full empty = elim (List-cases jobs) [
    | inl none_there ↦ h.some_jobs none_there
    | inr (j, js, e) ↦
        let none_to_come : sum_of (λ e. arrival_one e.payload) seeded.queue.heap ≡ 0 =
          ap (sum_of (λ e. arrival_one e.payload)) empty in
        omega (
          arith,
          seed-sums (λ e. arrival_one e.payload) (λ (j : Job). 1) jobs no_events (λ j seq. refl),
          ap (λ s. sum_of (λ e. arrival_one e.payload) s.queue.heap) (seed_lem jobs built),
          sum_ones jobs,
          ap length e,
          none_to_come,
        )
  ]
