-- ===== src/Engine/Simulator/Tests.antt =====
-- Runs of src/atlas/engine/simulator.cpp on a cluster of two nodes.
use atlas_simulator.Prelude.{
  ℕ, zero, suc, ◌≡◌, refl, ap, sym, subst, inl, inr, List, [], ◌∷◌, Option, some, none, arith,
  get_elem?, get_elem?-unique, ◌≤◌, ◌≢◌, All-get_elem?,
}
use atlas_simulator.Model.Types.{Job, Node, IsNode, Resources, queued, running as is_on_node, never}
use atlas_simulator.Model.Cluster.{Cluster}
use atlas_simulator.Sched.Place.{Scheduler, round_robin}
use atlas_simulator.Sched.Place.Any.{IsReady}
use atlas_simulator.Sched.Queue.{backfill, fifo}
use atlas_simulator.Sched.Queue.Reserve.{HasDenseIds}
use atlas_simulator.Engine.Simulator.{Simulator, make_simulator, run, drain}
use atlas_simulator.Engine.Simulator.Ledger.{Books, Phase, JobTimes, count}
use atlas_simulator.Engine.Simulator.Invariant.{Inv}
use atlas_simulator.Engine.Simulator.Drain.{Drained, drain-Drained}
use atlas_simulator.Engine.Simulator.Seed.{CanRun, IsUnused}
use atlas_simulator.Engine.Simulator.Outcome.{Outcome, run-Outcome}
use atlas_simulator.Engine.Simulator.Course.{
  Follows, run-Follows, StopsBy, run-StopsBy, KeepsOrder, run-KeepsOrder,
}
use atlas_simulator.Engine.Simulator.Readings.{CanMeasure}
use atlas_simulator.Engine.Simulator.Integral.{HasIntegral, run-HasIntegral}
use atlas_simulator.Engine.Simulator.Punctual.{
  IsOnTime, run-IsOnTime, HasTurnarounds, run-HasTurnarounds,
}
use atlas_simulator.Engine.Simulator.Complete.{EachFitsAlone, Completes, run-Completes}

abbrev per_node : Resources
per_node = record { cores = 16; memory_mb = 65536 }

abbrev pub two_nodes : Cluster
two_nodes = record {
  nodes =
      (record { id = 0; capacity = per_node; free = per_node; running_jobs = 0 })
      ∷ (record { id = 1; capacity = per_node; free = per_node; running_jobs = 0 })
      ∷ [];
}

abbrev job : ℕ → ℕ → ℕ → ℕ → Job
job id cores duration submit = record {
  id = id;
  request = record { cores = cores; memory_mb = 1024 };
  duration = duration;
  estimated_duration = duration;
  submit_time = submit;
  start_time = never;
  finish_time = never;
  node = 0;
  state = queued;
}

-- The third job waits for a whole node, and the fourth goes ahead of it.
abbrev pub four_jobs : List Job
four_jobs = job 0 16 100 0 ∷ job 1 12 100 5 ∷ job 2 16 50 6 ∷ job 3 2 20 7 ∷ []

abbrev pub cyclic : Option Scheduler
cyclic = some (round_robin 0)

abbrev small : Simulator
small = make_simulator two_nodes four_jobs none cyclic (some backfill)

same_id :
    (jobs : List Job) (i : ℕ) (x j : Job)
    → get_elem? jobs i ≡ some x
    → get_elem? jobs i ≡ some j
    → x.id ≡ i
    → j.id ≡ i
same_id jobs i x j here at e =
    let same = get_elem?-unique jobs i i refl here at in omega (arith, ap (λ (y : Job). y.id) same)

four_ids : (id : ℕ) (j : Job) → get_elem? four_jobs id ≡ some j → j.id ≡ id
four_ids zero j at = same_id four_jobs 0 _ j refl at refl
four_ids (suc zero) j at = same_id four_jobs 1 _ j refl at refl
four_ids (suc (suc zero)) j at = same_id four_jobs 2 _ j refl at refl
four_ids (suc (suc (suc zero))) j at = same_id four_jobs 3 _ j refl at refl
four_ids (suc (suc (suc (suc id)))) j at = cc

two_ids : HasDenseIds two_nodes.nodes
two_ids zero n at = ap (λ (m : Node). m.id) (get_elem?-unique two_nodes.nodes 0 0 refl refl at)
two_ids (suc zero) n at =
    ap (λ (m : Node). m.id) (get_elem?-unique two_nodes.nodes 1 1 refl refl at)
two_ids (suc (suc k)) n at = cc

two_ok :
    (id : ℕ) → IsNode (record { id = id; capacity = per_node; free = per_node; running_jobs = 0 })
two_ok id = record {
  cores_fit = omega arith;
  memory_fit = omega arith;
  free_cores = omega arith;
  free_memory = omega arith;
}

cyclic-IsReady : (s : Scheduler) → cyclic ≡ some s → IsReady s 2
cyclic-IsReady s e =
    subst (λ o. IsReady (elim o [ none ↦ round_robin 0 | some t ↦ t ]) 2) e (inl (omega arith))

pub small-CanRun : CanRun two_nodes four_jobs cyclic
small-CanRun = record {
  some_jobs = λ e. cc;
  ids = four_ids;
  few = omega arith;
  all_queued = (refl, (refl, (refl, (refl, tt))));
  room = (omega arith, (omega arith, (omega arith, (omega arith, tt))));
  nodes_ok = (two_ok 0, (two_ok 1, tt));
  dense = two_ids;
  few_nodes = omega arith;
  unused = ((refl, refl, refl), ((refl, refl, refl), tt));
  ready = cyclic-IsReady;
}

fits_first :
    (i : ℕ) (x j : Job)
    → get_elem? four_jobs i ≡ some x
    → get_elem? four_jobs i ≡ some j
    → x.request.cores ≤ 16
    → x.request.memory_mb ≤ 65536
    → (k : ℕ) × (n : Node) × (get_elem? two_nodes.nodes k ≡ some n)
      × (j.request.cores ≤ n.capacity.cores)
      × (j.request.memory_mb ≤ n.capacity.memory_mb)
fits_first i x j here at cores memory =
    let same = get_elem?-unique four_jobs i i refl here at in
    (
      0,
      _,
      refl,
      omega (arith, ap (λ (y : Job). y.request.cores) same),
      omega (arith, ap (λ (y : Job). y.request.memory_mb) same),
    )

four_fit : EachFitsAlone two_nodes four_jobs
four_fit zero j at = fits_first 0 _ j refl at (omega arith) (omega arith)
four_fit (suc zero) j at = fits_first 1 _ j refl at (omega arith) (omega arith)
four_fit (suc (suc zero)) j at = fits_first 2 _ j refl at (omega arith) (omega arith)
four_fit (suc (suc (suc zero))) j at = fits_first 3 _ j refl at (omega arith) (omega arith)
four_fit (suc (suc (suc (suc id)))) j at = cc

run-Outcome_example : Outcome small (run small)
run-Outcome_example = run-Outcome two_nodes four_jobs none cyclic (some backfill) small-CanRun

run-Completes_example : Completes small (run small)
run-Completes_example =
    run-Completes two_nodes four_jobs none cyclic (some backfill) small-CanRun four_fit

-- One job has arrived, at 5, and waits.
abbrev one_waits : Simulator
one_waits = record (make_simulator two_nodes (job 0 16 100 5 ∷ []) none cyclic (some backfill)) {
  pending = 0 ∷ [];
  now = 5;
}

one-Phase :
    (id : ℕ) (j : Job)
    → get_elem? (job 0 16 100 5 ∷ []) id ≡ some j
    → Phase j.state 0 (count id (0 ∷ [])) 0 0
one-Phase zero j at =
    subst (λ state. Phase state 0 1 0 0)
      (sym (ap (λ (x : Job). x.state) (get_elem?-unique (job 0 16 100 5 ∷ []) 0 0 refl refl at)))
      (refl, refl, refl)
one-Phase (suc id) j at = cc

one_id : (id : ℕ) (j : Job) → get_elem? (job 0 16 100 5 ∷ []) id ≡ some j → j.id ≡ id
one_id zero j at = ap (λ (x : Job). x.id) (get_elem?-unique (job 0 16 100 5 ∷ []) 0 0 refl refl at)
one_id (suc id) j at = cc

one_queued : (id : ℕ) (j : Job) → get_elem? (job 0 16 100 5 ∷ []) id ≡ some j → j.state ≢ is_on_node
one_queued zero j at runs =
    let waits =
      ap (λ (x : Job). x.state) (get_elem?-unique (job 0 16 100 5 ∷ []) 0 0 refl refl at) in
    cc
one_queued (suc id) j at runs = cc

two-Books :
    (k : ℕ) (n : Node) → get_elem? two_nodes.nodes k ≡ some n → Books n k (job 0 16 100 5 ∷ []) []
two-Books k n at =
    let (cores, memory, number) =
      All-get_elem? IsUnused two_nodes.nodes k ((refl, refl, refl), ((refl, refl, refl), tt)) at in
    record { cores = omega (arith, cores); memory = omega (arith, memory); number = number }

one-JobTimes :
    (id : ℕ) (j : Job) → get_elem? (job 0 16 100 5 ∷ []) id ≡ some j → JobTimes j.state 0 5 j
one-JobTimes zero j at =
    subst (λ (x : Job). JobTimes x.state 0 5 x)
      (sym (get_elem?-unique (job 0 16 100 5 ∷ []) 0 0 refl refl at)) (inr (omega arith))
one-JobTimes (suc id) j at = cc

one_waits-Inv : Inv one_waits one_waits.pending
unfolding make_simulator
one_waits-Inv = record {
  jobs_inv = record { ids = one_id; few = omega arith };
  nodes_inv = record {
    nodes_ok = (two_ok 0, (two_ok 1, tt));
    dense = two_ids;
    few = omega arith;
    books = two-Books;
    placed = λ id j at runs. absurd (one_queued id j at runs);
  };
  counts = record {
    pend_in = (omega arith, tt);
    on_in = tt;
    matches = tt;
    phases = one-Phase;
    on_number = refl;
  };
  clock = record {
    to_come = tt;
    event_room = tt;
    room = omega arith;
    checked_in = omega arith;
    times = record { events_timed = tt; jobs_timed = one-JobTimes };
  };
  seqs = record { is_queue = record { distinct = tt; given = tt }; seqs = omega arith };
  ready = inl (omega arith);
}

drain-Drained_example : Drained one_waits (drain one_waits)
drain-Drained_example = drain-Drained one_waits one_waits-Inv

run-IsOnTime_example : IsOnTime (run small)
run-IsOnTime_example = run-IsOnTime two_nodes four_jobs none cyclic (some backfill) small-CanRun

run-HasTurnarounds_example : HasTurnarounds (run small)
run-HasTurnarounds_example =
    run-HasTurnarounds two_nodes four_jobs none cyclic (some backfill) small-CanRun four_fit

run-HasIntegral_example : HasIntegral four_jobs (run small)
run-HasIntegral_example =
    run-HasIntegral two_nodes four_jobs none cyclic (some backfill) small-CanRun four_fit
      (record { cores_sum = omega arith; memory_sum = omega arith }) (omega arith) (omega arith)

run-Follows_example : Follows four_jobs two_nodes (run small)
run-Follows_example =
    run-Follows two_nodes four_jobs none cyclic (some backfill) small-CanRun four_fit

-- All are submitted by 7, and served for 270 in all.
run-StopsBy_example : StopsBy 277 (run small)
run-StopsBy_example =
    run-StopsBy two_nodes four_jobs none cyclic (some backfill) small-CanRun 7
      (omega arith, (omega arith, (omega arith, (omega arith, tt))))

run-KeepsOrder_example :
    KeepsOrder (run (make_simulator two_nodes four_jobs none cyclic (some fifo)))
run-KeepsOrder_example =
    run-KeepsOrder two_nodes four_jobs none cyclic (some fifo) small-CanRun (inr refl)

pub small-CanMeasure : CanMeasure two_nodes four_jobs 7
small-CanMeasure = record {
  each = four_fit;
  submitted = (omega arith, (omega arith, (omega arith, (omega arith, tt))));
  some_work = omega arith;
  early = omega arith;
  summable = record { cores_sum = omega arith; memory_sum = omega arith };
  some_cores = omega arith;
  some_memory = omega arith;
  core_span = omega arith;
  memory_span = omega arith;
  cores_fit = omega arith;
  memory_fit = omega arith;
}
