-- ===== src/Engine/Simulator/Invariant.antt =====
-- The invariant of src/atlas/engine/simulator.cpp between its steps, and what a step keeps.
use atlas_simulator.Prelude.{
  ℕ, ◌+◌, ◌<◌, ◌≡◌, refl, subst, ◌∙◌, List, some, arith, sum_of, get_elem?, length, map,
}
use atlas_simulator.Model.Types.{Resources, Job, JobState, queued, running as is_on_node, done}
use atlas_simulator.Sched.Place.Contract.{Refused}
use atlas_simulator.Sched.Place.Any.{IsReady}
use atlas_simulator.Sched.Queue.{fifo}
use atlas_simulator.Engine.Events.{EventPayload, job_arrival, job_finish, sim_end}
use atlas_simulator.Engine.Board.{Steps, still, Steps-trans}
use atlas_simulator.Engine.Simulator.{Simulator}
use atlas_simulator.Engine.Simulator.Ledger.{JobsInv, NodesInv, Counts, ClockInv, SeqInv, Phase}
use atlas_simulator.Engine.Simulator.Spent.{spent}
use atlas_simulator.Engine.Simulator.Boards.{spec_of, capacity_of, board, rules}
use atlas_simulator.Engine.Simulator.Horizon.{EndsBy}

-- The ledger of a simulator whose waiting jobs are `pend`.
pub record Inv (s : Simulator) (pend : List ℕ) : Type 0 where
  pub jobs_inv : JobsInv s.jobs
  pub nodes_inv : NodesInv s.cluster.nodes s.jobs s.running
  pub counts : Counts s.jobs pend s.running s.queue.heap
  pub clock : ClockInv s.now s.util.last_checkin s.jobs s.queue.heap
  pub seqs : SeqInv s.queue s.jobs
  pub ready : IsReady s.scheduler (length s.cluster.nodes)

abbrev pub arrival_one : EventPayload → ℕ
arrival_one (job_arrival job) = 1
arrival_one (job_finish job node) = 0
arrival_one sim_end = 0

abbrev pub undone_one : Job → ℕ
undone_one j = elim j.state [ queued ↦ 1 | is_on_node ↦ 1 | done ↦ 0 ]

-- The arrivals that are to come and the jobs that are not done.
abbrev pub work_left : Simulator → ℕ
work_left s = sum_of (λ e. arrival_one e.payload) s.queue.heap + sum_of undone_one s.jobs

-- The jobs are the same ones, and so are the nodes.
pub record Same (s s' : Simulator) : Type 0 where
  pub specs : map spec_of s'.jobs ≡ map spec_of s.jobs
  pub capacities : map capacity_of s'.cluster.nodes ≡ map capacity_of s.cluster.nodes

pub Same-refl : (s : Simulator) → Same s s
Same-refl s = record { specs = refl; capacities = refl }

pub Same-trans : (s t u : Simulator) → Same s t → Same t u → Same s u
Same-trans s t u h k = record {
  specs = k.specs ∙ h.specs;
  capacities = k.capacities ∙ h.capacities;
}

pub rules-Same :
    (s t : Simulator) → Same s t → rules t.jobs t.cluster.nodes ≡ rules s.jobs s.cluster.nodes
rules-Same s t same = rw (same.specs, same.capacities) refl

-- What the placement of jobs leaves alone.
pub record Keeps (s s' : Simulator) : Type 0 where
  pub now : s'.now ≡ s.now
  pub util : s'.util ≡ s.util
  pub work : work_left s' ≡ work_left s
  pub spent_same : (g : Resources → ℕ) → spent g s'.now s'.jobs ≡ spent g s.now s.jobs
  pub bounded :
      (limit : ℕ)
      → EndsBy limit s.now s.jobs s.queue.heap
      → EndsBy limit s'.now s'.jobs s'.queue.heap
  pub in_order : s.queue_policy ≡ fifo → s'.backfilled ≡ s.backfilled
  pub steps : Steps (rules s.jobs s.cluster.nodes) (board s'.now s'.jobs) (board s.now s.jobs)
  pub policy : s'.queue_policy ≡ s.queue_policy
  pub same : Same s s'
  pub tighter : (r : Resources) → Refused r s.cluster.nodes → Refused r s'.cluster.nodes
  pub requests :
      (x : ℕ) (i : Job)
      → get_elem? s.jobs x ≡ some i
      → (i' : Job) × (get_elem? s'.jobs x ≡ some i') × (i'.request ≡ i.request)

pub Keeps-refl : (s : Simulator) → Keeps s s
Keeps-refl s = record {
  same = Same-refl s;
  now = refl;
  util = refl;
  work = refl;
  spent_same = λ g. refl;
  bounded = λ limit h. h;
  in_order = λ e. refl;
  steps = still;
  policy = refl;
  tighter = λ r h. h;
  requests = λ x i at. (i, at, refl);
}

pub Keeps-trans : (s t u : Simulator) → Keeps s t → Keeps t u → Keeps s u
Keeps-trans s t u h k = record {
  same = Same-trans s t u h.same k.same;
  now = k.now ∙ h.now;
  util = k.util ∙ h.util;
  work = k.work ∙ h.work;
  spent_same = λ g. k.spent_same g ∙ h.spent_same g;
  bounded = λ limit r. k.bounded limit (h.bounded limit r);
  in_order = λ e. k.in_order (h.policy ∙ e) ∙ h.in_order e;
  steps = Steps-trans _ _ (board t.now t.jobs) _ h.steps (
      subst (λ r. Steps r (board u.now u.jobs) (board t.now t.jobs)) (rules-Same s t h.same)
        k.steps);
  policy = k.policy ∙ h.policy;
  tighter = λ r refused. k.tighter r (h.tighter r refused);
  requests = λ x i at.
      let (i', at', same) = h.requests x i at in
      let (i'', at'', same') = k.requests x i' at' in (i'', at'', same' ∙ same);
}

-- A job that is listed as waiting is queued, and listed once.
pub Phase-waiting :
    (state : JobState) (a w r f : ℕ) → Phase state a w r f → 0 < w → (state ≡ queued) × (w ≡ 1)
Phase-waiting queued a w r f p h = (refl, omega arith)
Phase-waiting is_on_node a w r f p h = absurd (omega arith)
Phase-waiting done a w r f p h = absurd (omega arith)

-- The same simulator with other waiting jobs and another count of those that went ahead.
pub Inv-pending :
    (s : Simulator) (pend pending : List ℕ) (backfilled : ℕ)
    → Inv s pend
    → Inv (record s { pending = pending; backfilled = backfilled }) pend
Inv-pending s pend pending backfilled v = record {
  jobs_inv = v.jobs_inv;
  nodes_inv = v.nodes_inv;
  counts = v.counts;
  clock = v.clock;
  seqs = v.seqs;
  ready = v.ready;
}

pub Keeps-pending :
    (s t : Simulator) (pending : List ℕ) (backfilled : ℕ)
    → Keeps s t
    → (s.queue_policy ≡ fifo → backfilled ≡ t.backfilled)
    → Keeps s (record t { pending = pending; backfilled = backfilled })
Keeps-pending s t pending backfilled k unchanged = record {
  same = record { specs = k.same.specs; capacities = k.same.capacities };
  now = k.now;
  util = k.util;
  work = k.work;
  spent_same = k.spent_same;
  bounded = k.bounded;
  in_order = λ e. unchanged e ∙ k.in_order e;
  steps = k.steps;
  policy = k.policy;
  tighter = k.tighter;
  requests = k.requests;
}
