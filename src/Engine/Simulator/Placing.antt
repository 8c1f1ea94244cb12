-- ===== src/Engine/Simulator/Placing.antt =====
-- `try_place` of src/atlas/engine/simulator.cpp under the invariant.
use atlas_simulator.Prelude.{
  ◌≤◌, ℕ, ◌+◌, ◌<◌, ◌≡◌, refl, ap, sym, subst, ◌∙◌, ◌⊎◌, inl, inr, Bool, true, false, List, Option,
  none, some, arith, All, All-set, All-get_elem?, get_elem?-unique, get_elem?-set_self,
  get_elem?-set_ne, get_elem?-lt, sub32_exact, sub64_exact, sum_of, sum_of-get_elem?, sum_of-set,
  get_elem?, set, length, length-set, map-set_same, ◌>>=◌, add64, add64_exact,
}
use native.Mathlib.Decide.{ℕ_discrete}
use atlas_simulator.Model.Types.{Resources, Node, IsNode, Job, queued, can_fit}
use atlas_simulator.Model.Cluster.{take_from}
use atlas_simulator.Model.Cluster.Moves.{allocate-eq-some}
use atlas_simulator.Sched.Place.Contract.{Answers, Refused}
use atlas_simulator.Sched.Place.Any.{IsReady, place-Placed}
use atlas_simulator.Engine.Events.{job_finish, Event, schedule}
use atlas_simulator.Engine.Board.{still, more}
use atlas_simulator.Engine.Simulator.{Simulator, start_on, try_place, start_job}
use atlas_simulator.Engine.Simulator.Ledger.{is, unstarted_one, count, Phase, arrivals, finishes}
use atlas_simulator.Engine.Simulator.Spent.{spent-start}
use atlas_simulator.Engine.Simulator.Boards.{spec_of, capacity_of, start-Step}
use atlas_simulator.Engine.Simulator.Times.{JobTimes-arrived}
use atlas_simulator.Engine.Simulator.Horizon.{EndsBy-start}
use atlas_simulator.Engine.Simulator.Start.{
  JobsInv-start, NodesInv-start, Counts-start, ClockInv-start, SeqInv-start, is_one,
}
use atlas_simulator.Engine.Simulator.Invariant.{Inv, undone_one, Keeps, Keeps-refl, Keeps-trans}

take_from-capacity : (n : Node) (q : Resources) → capacity_of (take_from n q) ≡ capacity_of n
unfolding take_from
take_from-capacity n q = refl

take_from-tight :
    (n : Node) (q r : Resources)
    → IsNode n
    → can_fit n q ≡ true
    → can_fit n r ≡ false
    → can_fit (take_from n q) r ≡ false
unfolding take_from can_fit
take_from-tight n q r v fits tight =
    ground (arith, sub32_exact n.free.cores q.cores, sub64_exact n.free.memory_mb q.memory_mb)

-- `try_place` of the job `j` puts it on a node, and the waiting jobs are `pend'`; or no node can
-- take it, and only the scheduler's own state may have changed.
pub record Started (s : Simulator) (pend' : List ℕ) (r : Option (Bool × Simulator)) : Type 0 where
  pub next : Simulator
  pub result : r ≡ some (true, next)
  pub inv : Inv next pend'
  pub pending : next.pending ≡ s.pending
  pub keeps : Keeps s next

pub record Blocked (s : Simulator) (pend : List ℕ) (j : Job) (r : Option (Bool × Simulator))
    : Type 0 where
  pub next : Simulator
  pub result : r ≡ some (false, next)
  pub inv : Inv next pend
  pub pending : next.pending ≡ s.pending
  pub keeps : Keeps s next
  pub refused : Refused j.request next.cluster.nodes
  pub refused_before : Refused j.request s.cluster.nodes

unstarted_queued : (j : Job) → j.state ≡ queued → unstarted_one j ≡ j.duration
unstarted_queued j waits = ground (arith, waits)

module _ (s : Simulator) (pend pend' : List ℕ) (id : ℕ) (j : Job)
    (at : get_elem? s.jobs id ≡ some j) (waits : j.state ≡ queued)
    (less : (x : ℕ) → count x pend ≡ is x id + count x pend')
    (inside : All (λ x. x < length s.jobs) pend') where
  Phase-before :
      Inv s pend
      → Phase queued
          (arrivals id s.queue.heap)
          (count id pend)
          (count id s.running)
          (finishes id s.queue.heap)
  Phase-before v =
      subst
        (λ state.
          Phase state (arrivals id s.queue.heap) (count id pend) (count id s.running)
            (finishes id s.queue.heap))
        waits (v.counts.phases id j at)

  work_after :
      (node : ℕ)
      → sum_of undone_one (set s.jobs id (start_job j s.now node)) ≡ sum_of undone_one s.jobs
  work_after node = ground (arith, sum_of-set undone_one s.jobs id j (start_job j s.now node) at)

  requests_after :
      (node x : ℕ) (i : Job)
      → get_elem? s.jobs x ≡ some i
      → (i' : Job) × (get_elem? (set s.jobs id (start_job j s.now node)) x ≡ some i')
        × (i'.request ≡ i.request)
  requests_after node x i there = elim (ℕ_discrete id x) [
    | yes same ↦ (
      start_job j s.now node,
      ap (get_elem? (set s.jobs id (start_job j s.now node))) (sym same)
          ∙ get_elem?-set_self s.jobs id (start_job j s.now node) (get_elem?-lt s.jobs id at),
      ap (λ (k : Job). k.request) (sym (get_elem?-unique s.jobs id x same at there)),
    )
    | no other ↦ (i, get_elem?-set_ne s.jobs id x _ other ∙ there, refl)
  ]

  start_on-Started :
      (node : ℕ) (n : Node)
      → get_elem? s.cluster.nodes node ≡ some n
      → can_fit n j.request ≡ true
      → Inv s pend
      → Started s pend' (start_on s id j (some node))
  unfolding start_on schedule
  start_on-Started node n there fits v =
      let absent : count id s.running ≡ 0 = (Phase-before v).1 in
      let event : Event = record {
        time = add64 s.now j.duration;
        seq = s.queue.next_seq;
        payload = job_finish j.id node;
      } in
      let arrived : arrivals id s.queue.heap ≡ 0 =
        omega (arith, (Phase-before v).0, less id, is_one id) in
      let submitted : j.submit_time ≤ s.now =
        JobTimes-arrived j.state _ s.now j waits arrived (v.clock.times.jobs_timed id j at) in
      let exact : add64 s.now j.duration ≡ s.now + j.duration = add64_exact s.now j.duration (
        omega (
          arith,
          v.clock.room,
          sum_of-get_elem? unstarted_one s.jobs id j at,
          unstarted_queued j waits,
        )) in
      let names : event.payload ≡ job_finish id node =
        ap (λ x. job_finish x node) (v.jobs_inv.ids id j at) in
      rw (allocate-eq-some s.cluster node j.request n there fits, ◌>>=◌)
        (record {
          next = _;
          result = refl;
          inv = record {
            jobs_inv = JobsInv-start s.jobs s.running id j s.now node at waits v.jobs_inv;
            nodes_inv =
                NodesInv-start s.jobs s.running id j s.now node at waits s.cluster.nodes n there
                  fits absent v.jobs_inv v.counts.on_number v.nodes_inv;
            counts =
                Counts-start s.jobs s.running id j s.now node at waits pend pend' s.queue.heap event
                  names less inside v.counts;
            clock =
                ClockInv-start s.jobs s.running id j s.now node at waits s.util.last_checkin
                  s.queue.heap event refl names arrived (Phase-before v).2 v.clock;
            seqs =
                SeqInv-start s.jobs s.running id j s.now node at waits s.queue event.time
                  event.payload v.jobs_inv v.seqs;
            ready =
                subst (IsReady s.scheduler)
                  (sym (length-set s.cluster.nodes node (take_from n j.request))) v.ready;
          };
          pending = refl;
          keeps = record {
            same = record {
              specs = map-set_same spec_of s.jobs id j _ at refl;
              capacities =
                  map-set_same capacity_of s.cluster.nodes node n _ there
                    (take_from-capacity n j.request);
            };
            now = refl;
            util = refl;
            work = omega (arith, work_after node);
            spent_same = λ g. spent-start g s.now node s.jobs id j at waits;
            bounded = λ limit r.
                EndsBy-start limit s.now node s.jobs id j s.queue.heap event at waits exact r;
            in_order = λ e. refl;
            steps =
                more _ _
                  (start-Step s.now s.jobs s.cluster.nodes pend s.running s.queue.heap id j node n
                    at waits there fits submitted v.counts v.nodes_inv)
                  still;
            policy = refl;
            tighter = λ r refused. All-set _ s.cluster.nodes node _ refused (
                take_from-tight n j.request r
                  (All-get_elem? IsNode s.cluster.nodes node v.nodes_inv.nodes_ok there) fits
                  (All-get_elem? _ s.cluster.nodes node refused there));
            requests = requests_after node;
          };
        })

  -- What the scheduler's answer comes to.
  start_on_cases :
      (answer : Option ℕ)
      → Answers j.request s.cluster.nodes answer
      → Inv s pend
      → Started s pend' (start_on s id j answer) ⊎ Blocked s pend j (start_on s id j answer)
  unfolding start_on
  start_on_cases none refused v = inr (record {
    next = s;
    result = refl;
    inv = v;
    pending = refl;
    keeps = Keeps-refl s;
    refused = refused;
    refused_before = refused;
  })
  start_on_cases (some node) found v =
      let same : found.index ≡ node =
        sym (v.nodes_inv.dense found.index found.node found.at) ∙ found.named in
      inl (
        start_on-Started node found.node
          (subst (λ k. get_elem? s.cluster.nodes k ≡ some found.node) same found.at) found.fits v)

-- A job that waits is put on a node, or no node can take it.
pub try_place_cases :
    (s : Simulator) (pend pend' : List ℕ) (id : ℕ) (j : Job)
    → get_elem? s.jobs id ≡ some j
    → j.state ≡ queued
    → ((x : ℕ) → count x pend ≡ is x id + count x pend')
    → All (λ x. x < length s.jobs) pend'
    → Inv s pend
    → Started s pend' (try_place s id) ⊎ Blocked s pend j (try_place s id)
unfolding try_place
try_place_cases s pend pend' id j at waits less inside v =
    let p = place-Placed s.scheduler j s.cluster.nodes v.nodes_inv.few v.ready in
    let s' : Simulator = record s { scheduler = p.scheduler } in
    let v' : Inv s' pend = record {
      jobs_inv = v.jobs_inv;
      nodes_inv = v.nodes_inv;
      counts = v.counts;
      clock = v.clock;
      seqs = v.seqs;
      ready = p.ready;
    } in
    let renewed : Keeps s s' = record {
      same = record { specs = refl; capacities = refl };
      now = refl;
      util = refl;
      work = refl;
      spent_same = λ g. refl;
      bounded = λ limit h. h;
      in_order = λ e. refl;
      steps = still;
      policy = refl;
      tighter = λ r h. h;
      requests = λ x i there. (i, there, refl);
    } in
    rw (at, ◌>>=◌)
      (rw (p.result, ◌>>=◌)
        (elim (start_on_cases s' pend pend' id j at waits less inside p.answer p.right v') [
          | inl t ↦ inl (record {
            next = t.next;
            result = t.result;
            inv = t.inv;
            pending = t.pending;
            keeps = Keeps-trans s s' t.next renewed t.keeps;
          })
          | inr b ↦ inr (record {
            next = b.next;
            result = b.result;
            inv = b.inv;
            pending = b.pending;
            keeps = Keeps-trans s s' b.next renewed b.keeps;
            refused = b.refused;
            refused_before = b.refused_before;
          })
        ]))
