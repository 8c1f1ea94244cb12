-- ===== src/Engine/Simulator/Ledger.antt =====
-- Where each job of src/atlas/engine/simulator.hpp stands, counted: in the events that are to
-- come, in `pending_`, in `running_`, and in what its node has given away.
use atlas_simulator.Prelude.{
  ℕ, ◌+◌, ◌*◌, ◌≤◌, ◌<◌, ◌≡◌, refl, ap, ◌∙◌, ◌≢◌, ◌⊎◌, List, [], ◌∷◌, Option, none, some, arith,
  ◌==◌, if◌then◌else◌, All, sum_of, get_elem?, set, length, u32_mod, u64_mod, get_elem?-set_ne,
  length-set,
}
use atlas_simulator.Model.Types.{Node, IsNode, Job, JobState, queued, running as is_on_node, done}
use atlas_simulator.Sched.Queue.Reserve.{HasDenseIds}
use atlas_simulator.Engine.Events.{
  EventPayload, job_arrival, job_finish, sim_end, Event, EventQueue,
}
use atlas_simulator.Engine.Events.Order.{IsQueue}

-- One for the id, zero for any other.
abbrev pub is : ℕ → ℕ → ℕ
is id x = if x == id then 1 else 0

-- How often the id stands in a list.
abbrev pub count : ℕ → List ℕ → ℕ
count id = sum_of (is id)

abbrev pub arrivals_in : ℕ → EventPayload → ℕ
arrivals_in id (job_arrival job) = is id job
arrivals_in id (job_finish job node) = 0
arrivals_in id sim_end = 0

abbrev pub finishes_in : ℕ → EventPayload → ℕ
finishes_in id (job_arrival job) = 0
finishes_in id (job_finish job node) = is id job
finishes_in id sim_end = 0

abbrev pub arrivals : ℕ → List Event → ℕ
arrivals id = sum_of (λ e. arrivals_in id e.payload)

abbrev pub finishes : ℕ → List Event → ℕ
finishes id = sum_of (λ e. finishes_in id e.payload)

-- A queued job is to arrive or waits, once; a running job is listed once and ends once; a job
-- that is done stands nowhere.
abbrev pub Phase : JobState → ℕ → ℕ → ℕ → ℕ → Type 0
Phase queued arriving waiting on_nodes ending =
    (arriving + waiting ≡ 1) × (on_nodes ≡ 0) × (ending ≡ 0)
Phase is_on_node arriving waiting on_nodes ending =
    (arriving ≡ 0) × (waiting ≡ 0) × (on_nodes ≡ 1) × (ending ≡ 1)
Phase done arriving waiting on_nodes ending =
    (arriving ≡ 0) × (waiting ≡ 0) × (on_nodes ≡ 0) × (ending ≡ 0)

abbrev pub queued_one : Job → ℕ
queued_one j = elim j.state [ queued ↦ 1 | is_on_node ↦ 0 | done ↦ 0 ]

abbrev pub running_one : Job → ℕ
running_one j = elim j.state [ queued ↦ 0 | is_on_node ↦ 1 | done ↦ 0 ]

-- The service time of the jobs that have not started.
abbrev pub unstarted_one : Job → ℕ
unstarted_one j = elim j.state [ queued ↦ j.duration | is_on_node ↦ 0 | done ↦ 0 ]

-- A finish event names the node that its job is on.
abbrev pub PayloadMatches : List Job → EventPayload → Type 0
PayloadMatches jobs (job_arrival job) = job < length jobs
PayloadMatches jobs (job_finish job node) =
    (j : Job) × (get_elem? jobs job ≡ some j) × (j.node ≡ node)
PayloadMatches jobs sim_end = ⊥

-- A quantity of a job that is on node `k`.
abbrev pub part : (Job → ℕ) → ℕ → Option Job → ℕ
part f k none = 0
part f k (some j) = if j.node == k then f j else 0

abbrev pub on_node : (Job → ℕ) → ℕ → List Job → ℕ → ℕ
on_node f k jobs id = part f k (get_elem? jobs id)

abbrev pub cores_of : Job → ℕ
cores_of j = j.request.cores

abbrev pub memory_of : Job → ℕ
memory_of j = j.request.memory_mb

abbrev pub one_of : Job → ℕ
one_of j = 1

pub record JobsInv (jobs : List Job) : Type 0 where
  pub ids : (id : ℕ) (j : Job) → get_elem? jobs id ≡ some j → j.id ≡ id
  pub few : length jobs < u32_mod

-- What a node has given away is what the jobs on it hold.
pub record Books (n : Node) (k : ℕ) (jobs : List Job) (on : List ℕ) : Type 0 where
  pub cores : n.free.cores + sum_of (on_node cores_of k jobs) on ≡ n.capacity.cores
  pub memory : n.free.memory_mb + sum_of (on_node memory_of k jobs) on ≡ n.capacity.memory_mb
  pub number : n.running_jobs ≡ sum_of (on_node one_of k jobs) on

pub record NodesInv (nodes : List Node) (jobs : List Job) (on : List ℕ) : Type 0 where
  pub nodes_ok : All IsNode nodes
  pub dense : HasDenseIds nodes
  pub few : length nodes < u64_mod
  pub books : (k : ℕ) (n : Node) → get_elem? nodes k ≡ some n → Books n k jobs on
  pub placed :
      (id : ℕ) (j : Job) → get_elem? jobs id ≡ some j → j.state ≡ is_on_node → j.node < length nodes

pub record Counts (jobs : List Job) (pend on : List ℕ) (heap : List Event) : Type 0 where
  pub pend_in : All (λ id. id < length jobs) pend
  pub on_in : All (λ id. id < length jobs) on
  pub matches : All (λ e. PayloadMatches jobs e.payload) heap
  pub phases :
      (id : ℕ) (j : Job)
      → get_elem? jobs id ≡ some j
      → Phase j.state (arrivals id heap) (count id pend) (count id on) (finishes id heap)
  pub on_number : length on ≡ sum_of running_one jobs

-- An arrival comes at the submit time of its job, a finish at the end of its service.
abbrev pub PayloadTimes : List Job → ℕ → EventPayload → Type 0
PayloadTimes jobs time (job_arrival job) =
    (j : Job) → get_elem? jobs job ≡ some j → time ≡ j.submit_time
PayloadTimes jobs time (job_finish job node) =
    (j : Job) → get_elem? jobs job ≡ some j → time ≡ j.start_time + j.duration
PayloadTimes jobs time sim_end = Unit

-- A job that waits was submitted, none starts before it is, and a done one was served in full.
abbrev pub JobTimes : JobState → ℕ → ℕ → Job → Type 0
JobTimes queued arriving now j = (0 < arriving) ⊎ (j.submit_time ≤ now)
JobTimes is_on_node arriving now j = (j.submit_time ≤ j.start_time) × (j.start_time ≤ now)
JobTimes done arriving now j =
    (j.submit_time ≤ j.start_time)
    × (j.finish_time ≡ j.start_time + j.duration)
    × (j.finish_time ≤ now)

pub record Times (now : ℕ) (jobs : List Job) (heap : List Event) : Type 0 where
  pub events_timed : All (λ e. PayloadTimes jobs e.time e.payload) heap
  pub jobs_timed :
      (id : ℕ) (j : Job) → get_elem? jobs id ≡ some j → JobTimes j.state (arrivals id heap) now j

-- Every event is still to come, and there is time for all jobs one after the other.
pub record ClockInv (now checked : ℕ) (jobs : List Job) (heap : List Event) : Type 0 where
  pub to_come : All (λ e. now ≤ e.time) heap
  pub event_room : All (λ e. e.time + sum_of unstarted_one jobs < u64_mod) heap
  pub room : now + sum_of unstarted_one jobs < u64_mod
  pub checked_in : checked ≤ now
  pub times : Times now jobs heap

pub record SeqInv (q : EventQueue) (jobs : List Job) : Type 0 where
  pub is_queue : IsQueue q
  pub seqs : q.next_seq + sum_of queued_one jobs ≤ 2 * length jobs

pub is_self : (id x : ℕ) → id ≡ x → is id x ≢ 0
is_self id x e h = ground arith

payload-set :
    (jobs : List Job) (id : ℕ) (j : Job) (p : EventPayload)
    → finishes_in id p ≡ 0
    → PayloadMatches jobs p
    → PayloadMatches (set jobs id j) p
payload-set jobs id j (job_arrival job) h m = omega (arith, length-set jobs id j)
payload-set jobs id j (job_finish job node) h (x, at, on) =
    (x, get_elem?-set_ne jobs id job j (λ e. is_self id job e h) ∙ at, on)
payload-set jobs id j sim_end h m = m

-- A list without the id does not notice a change of its job.
pub on_node-set :
    (f : Job → ℕ) (k : ℕ) (jobs : List Job) (id : ℕ) (j : Job) (on : List ℕ)
    → count id on ≡ 0
    → sum_of (on_node f k (set jobs id j)) on ≡ sum_of (on_node f k jobs) on
on_node-set f k jobs id j [] h = refl
on_node-set f k jobs id j (x ∷ on) h =
    let other : id ≢ x = λ e. is_self id x e (omega arith) in
    let rest = on_node-set f k jobs id j on (omega arith) in
    omega (arith, ap (part f k) (get_elem?-set_ne jobs id x j other), rest)

-- A list of events without a finish of the job does not notice it either.
pub matches-set :
    (jobs : List Job) (id : ℕ) (j : Job) (heap : List Event)
    → finishes id heap ≡ 0
    → All (λ e. PayloadMatches jobs e.payload) heap
    → All (λ e. PayloadMatches (set jobs id j) e.payload) heap
matches-set jobs id j [] h m = tt
matches-set jobs id j (e ∷ es) h m =
    (payload-set jobs id j e.payload (omega arith) m.0, matches-set jobs id j es (omega arith) m.1)
