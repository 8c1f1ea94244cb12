-- ===== src/Engine/Simulator/Start.antt =====
-- What the start of a job does to the ledger: `try_place` of src/atlas/engine/simulator.cpp.
use atlas_simulator.Prelude.{
  ℕ, ◌+◌, ◌≤◌, ◌<◌, ◌≡◌, refl, ap, sym, subst, ◌∙◌, ◌≢◌, inl, inr, true, List, [], ◌∷◌, ◌++◌,
  Option, none, some, arith, ◌==◌, ==_iff, if◌then◌else◌, All, All-set, All-append, All-get_elem?,
  sum_of, sum_of-append, sum_of-set, get_elem?, set, length, length-set, length-append, u32_mod,
  u64_mod, get_elem?-set_self, get_elem?-set_cases, get_elem?-lt, add64, add64_exact,
}
use native.Mathlib.Nat.{le_refl}
use atlas_simulator.Model.Types.{
  Resources, Node, IsNode, Job, JobState, queued, running as is_on_node, can_fit,
}
use atlas_simulator.Model.Cluster.{take_from}
use atlas_simulator.Model.Cluster.Moves.{take_from_exact, take_from-IsNode}
use atlas_simulator.Engine.Events.{EventPayload, job_finish, Event, EventQueue, schedule}
use atlas_simulator.Engine.Events.Order.{schedule-IsQueue}
use atlas_simulator.Engine.Simulator.{start_job}
use atlas_simulator.Engine.Simulator.Times.{Times-start}
use atlas_simulator.Engine.Simulator.Ledger.{
  is, count, arrivals, finishes, arrivals_in, finishes_in, Phase, queued_one, running_one,
  unstarted_one, PayloadMatches, on_node, part, cores_of, memory_of, one_of, JobsInv, Books,
  NodesInv, Counts, ClockInv, SeqInv, on_node-set, matches-set,
}

pub sum_of-le-length :
    (f : Job → ℕ) (jobs : List Job) → ((j : Job) → f j ≤ 1) → sum_of f jobs ≤ length jobs
sum_of-le-length f [] h = omega arith
sum_of-le-length f (j ∷ jobs) h = omega (arith, h j, sum_of-le-length f jobs h)

pub running_one-le : (j : Job) → running_one j ≤ 1
running_one-le j = ground arith

take_from-id : (n : Node) (r : Resources) → (take_from n r).id ≡ n.id
unfolding take_from
take_from-id n r = refl

-- A list's parts on one node are at most one for each entry.
part-le : (f : Job → ℕ) (k : ℕ) (o : Option Job) → ((j : Job) → f j ≤ 1) → part f k o ≤ 1
part-le f k none h = omega arith
part-le f k (some j) h = ground (arith, h j)

pub parts-le-length :
    (f : Job → ℕ) (k : ℕ) (jobs : List Job) (on : List ℕ)
    → ((j : Job) → f j ≤ 1)
    → sum_of (on_node f k jobs) on ≤ length on
parts-le-length f k jobs [] h = omega arith
parts-le-length f k jobs (x ∷ on) h =
    omega (arith, part-le f k (get_elem? jobs x) h, parts-le-length f k jobs on h)

pub is_one : (id : ℕ) → is id id ≡ 1
is_one id = ground arith

pub is_zero : (x id : ℕ) → x ≢ id → is x id ≡ 0
is_zero x id other = ground arith

room_mono :
    (heap : List Event) (m n : ℕ)
    → n ≤ m
    → All (λ e. e.time + m < u64_mod) heap
    → All (λ e. e.time + n < u64_mod) heap
room_mono [] m n le h = tt
room_mono (e ∷ es) m n le h = (omega arith, room_mono es m n le h.1)

module _ (jobs : List Job) (on : List ℕ) (id : ℕ) (j : Job) (now k : ℕ)
    (at : get_elem? jobs id ≡ some j) (waits : j.state ≡ queued) where
  abbrev pub started : Job
  started = start_job j now k

  abbrev pub jobs_after : List Job
  jobs_after = set jobs id started

  abbrev pub on_after : List ℕ
  on_after = on ++ id ∷ []

  unstarted_after : sum_of unstarted_one jobs_after + j.duration ≡ sum_of unstarted_one jobs
  unstarted_after = ground (arith, sum_of-set unstarted_one jobs id j started at)

  queued_after : sum_of queued_one jobs_after + 1 ≡ sum_of queued_one jobs
  queued_after = ground (arith, sum_of-set queued_one jobs id j started at)

  running_after : sum_of running_one jobs_after ≡ sum_of running_one jobs + 1
  running_after = ground (arith, sum_of-set running_one jobs id j started at)

  read_after : get_elem? jobs_after id ≡ some started
  read_after = get_elem?-set_self jobs id started (get_elem?-lt jobs id at)

  on_node-start :
      (f : Job → ℕ) (k' : ℕ)
      → count id on ≡ 0
      → sum_of (on_node f k' jobs_after) on_after
        ≡ sum_of (on_node f k' jobs) on + (if k == k' then f started else 0)
  on_node-start f k' absent =
      sum_of-append (on_node f k' jobs_after) on (id ∷ [])
      ∙ omega (arith, on_node-set f k' jobs id started on absent, ap (part f k') read_after)

  pub JobsInv-start : JobsInv jobs → JobsInv jobs_after
  JobsInv-start v = record {
    ids = λ x i here. elim (get_elem?-set_cases jobs id x started i here) [
      | inl (same, new) ↦ rw new (v.ids id j at ∙ sym same)
      | inr (other, old) ↦ v.ids x i old
    ];
    few = omega (arith, length-set jobs id started, v.few);
  }

  module _ (nodes : List Node) (n : Node) (there : get_elem? nodes k ≡ some n)
      (fits : can_fit n j.request ≡ true) (absent : count id on ≡ 0) where
    abbrev pub nodes_after : List Node
    nodes_after = set nodes k (take_from n j.request)

    n-IsNode : NodesInv nodes jobs on → IsNode n
    n-IsNode v = All-get_elem? IsNode nodes k v.nodes_ok there

    -- The count of running jobs on the node stays in its type.
    node_room :
        JobsInv jobs
        → length on ≡ sum_of running_one jobs
        → NodesInv nodes jobs on
        → n.running_jobs + 1 < u32_mod
    node_room w number v =
        let b = v.books k n there in
        omega (
          arith,
          b.number,
          parts-le-length one_of k jobs on (λ i. le_refl 1),
          running_after,
          sum_of-le-length running_one jobs_after running_one-le,
          length-set jobs id started,
          w.few,
          number,
        )

    Books-here :
        IsNode n
        → n.running_jobs + 1 < u32_mod
        → Books n k jobs on
        → Books (take_from n j.request) k jobs_after on_after
    unfolding can_fit
    Books-here ok room b =
        let self = (==_iff k k).1 refl in
        rw (take_from_exact n j.request ok fits room) (record {
          cores = ground (arith, b.cores, self, on_node-start cores_of k absent);
          memory = ground (arith, b.memory, self, on_node-start memory_of k absent);
          number = ground (arith, b.number, self, on_node-start one_of k absent);
        })

    Books-elsewhere :
        (k' : ℕ) (m : Node) → k' ≢ k → Books m k' jobs on → Books m k' jobs_after on_after
    Books-elsewhere k' m other b = record {
      cores = ground (arith, b.cores, on_node-start cores_of k' absent);
      memory = ground (arith, b.memory, on_node-start memory_of k' absent);
      number = ground (arith, b.number, on_node-start one_of k' absent);
    }

    pub NodesInv-start :
        JobsInv jobs
        → length on ≡ sum_of running_one jobs
        → NodesInv nodes jobs on
        → NodesInv nodes_after jobs_after on_after
    NodesInv-start w number v = record {
      nodes_ok =
          All-set IsNode nodes k _ v.nodes_ok (take_from-IsNode n j.request (n-IsNode v) fits);
      dense = λ i m here. elim (get_elem?-set_cases nodes k i _ m here) [
        | inl (same, new) ↦ rw new (take_from-id n j.request ∙ v.dense k n there ∙ sym same)
        | inr (other, old) ↦ v.dense i m old
      ];
      few = omega (arith, length-set nodes k (take_from n j.request), v.few);
      books = λ i m here. elim (get_elem?-set_cases nodes k i _ m here) [
        | inl (same, new) ↦
            rw (new, same) (Books-here (n-IsNode v) (node_room w number v) (v.books k n there))
        | inr (other, old) ↦ Books-elsewhere i m other (v.books i m old)
      ];
      placed = λ x i here on_it. elim (get_elem?-set_cases jobs id x started i here) [
        | inl (same, new) ↦
            rw new (
              omega (arith, length-set nodes k (take_from n j.request), get_elem?-lt nodes k there))
        | inr (other, old) ↦
            omega (arith, length-set nodes k (take_from n j.request), v.placed x i old on_it)
      ];
    }

  -- The lists and the events after the start, where `pend'` is `pend` less the id.
  module _ (pend pend' : List ℕ) (heap : List Event) (e : Event)
      (names : e.payload ≡ job_finish id k)
      (less : (x : ℕ) → count x pend ≡ is x id + count x pend')
      (inside : All (λ x. x < length jobs) pend') where
    Phase-here :
        Phase queued (arrivals id heap) (count id pend) (count id on) (finishes id heap)
        → Phase is_on_node
            (arrivals id (e ∷ heap))
            (count id pend')
            (count id on_after)
            (finishes id (e ∷ heap))
    Phase-here p = omega (
      arith,
      p,
      ap (arrivals_in id) names,
      ap (finishes_in id) names,
      sum_of-append (is id) on (id ∷ []),
      is_one id,
      less id,
    )

    -- What is counted for another job does not change.
    counts_elsewhere :
        (x : ℕ)
        → x ≢ id
        → (arrivals x (e ∷ heap) ≡ arrivals x heap)
          × (count x pend' ≡ count x pend)
          × (count x on_after ≡ count x on)
          × (finishes x (e ∷ heap) ≡ finishes x heap)
    counts_elsewhere x other = omega (
      arith,
      ap (arrivals_in x) names,
      ap (finishes_in x) names,
      sum_of-append (is x) on (id ∷ []),
      is_zero x id other,
      less x,
    )

    Phase-elsewhere :
        (x : ℕ) (state : JobState)
        → x ≢ id
        → Phase state (arrivals x heap) (count x pend) (count x on) (finishes x heap)
        → Phase state
            (arrivals x (e ∷ heap))
            (count x pend')
            (count x on_after)
            (finishes x (e ∷ heap))
    Phase-elsewhere x state other p =
        let (a, w, r, f) = counts_elsewhere x other in rw (a, w, r, f) p

    pub Counts-start : Counts jobs pend on heap → Counts jobs_after pend' on_after (e ∷ heap)
    Counts-start v =
        let here : Phase queued (arrivals id heap) (count id pend) (count id on)
            (finishes id heap) =
          subst
            (λ state.
              Phase state (arrivals id heap) (count id pend) (count id on) (finishes id heap))
            waits (v.phases id j at) in
        let same_length = length-set jobs id started in
        record {
          pend_in = subst (λ n. All (λ x. x < n) pend') (sym same_length) inside;
          on_in =
              subst (λ n. All (λ x. x < n) on_after) (sym same_length)
                (All-append (λ x. x < length jobs) on (id ∷ []) v.on_in
                  (get_elem?-lt jobs id at, tt));
          matches = (
            subst (PayloadMatches jobs_after) (sym names) (started, read_after, refl),
            matches-set jobs id started heap here.2 v.matches,
          );
          phases = λ x i there. elim (get_elem?-set_cases jobs id x started i there) [
            | inl (same, new) ↦ rw new (
                subst
                  (λ y.
                    Phase is_on_node (arrivals y (e ∷ heap)) (count y pend') (count y on_after)
                      (finishes y (e ∷ heap)))
                  (sym same) (Phase-here here))
            | inr (other, old) ↦ Phase-elsewhere x i.state other (v.phases x i old)
          ];
          on_number = omega (arith, length-append on (id ∷ []), v.on_number, running_after);
        }

  pub ClockInv-start :
      (checked : ℕ) (heap : List Event) (e : Event)
      → e.time ≡ add64 now j.duration
      → e.payload ≡ job_finish id k
      → arrivals id heap ≡ 0
      → finishes id heap ≡ 0
      → ClockInv now checked jobs heap
      → ClockInv now checked jobs_after (e ∷ heap)
  ClockInv-start checked heap e timed names arrived no_end v =
      let exact : add64 now j.duration ≡ now + j.duration =
        add64_exact now j.duration (omega (arith, v.room, unstarted_after)) in
      record {
        to_come = (omega (arith, timed, exact), v.to_come);
        event_room = (
          omega (arith, timed, exact, v.room, unstarted_after),
          room_mono heap (sum_of unstarted_one jobs) (sum_of unstarted_one jobs_after)
              (omega (arith, unstarted_after)) v.event_room,
        );
        room = omega (arith, v.room, unstarted_after);
        checked_in = v.checked_in;
        times =
            Times-start now k jobs id j heap e at waits arrived no_end names (timed ∙ exact)
              v.times;
      }

  pub SeqInv-start :
      (q : EventQueue) (time : ℕ) (payload : EventPayload)
      → JobsInv jobs
      → SeqInv q jobs
      → SeqInv (schedule q time payload) jobs_after
  unfolding schedule
  SeqInv-start q time payload w v =
      let room : q.next_seq + 1 < u64_mod = omega (arith, v.seqs, queued_after, w.few) in
      record {
        is_queue = schedule-IsQueue q time payload v.is_queue room;
        seqs = omega (
          arith,
          v.seqs,
          queued_after,
          length-set jobs id started,
          add64_exact q.next_seq 1 room,
        );
      }
