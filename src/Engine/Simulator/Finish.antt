-- ===== src/Engine/Simulator/Finish.antt =====
-- What the end of a job does to the ledger: `on_finish` of src/atlas/engine/simulator.cpp, up to
-- its call of `drain`.
use atlas_simulator.Prelude.{
  ℕ, ◌+◌, ◌-◌, ◌≤◌, ◌<◌, ◌≡◌, refl, ap, sym, subst, ◌∙◌, ◌≢◌, inl, inr, true, List, some, arith,
  ◌==◌, ==_iff, if◌then◌else◌, All, All-set, All-get_elem?, sum_of, sum_of-set, get_elem?, set,
  length, length-set, u32_mod, get_elem?-set_cases, add32_exact, add64_exact, sub32_exact,
  sub64_exact,
}
use native.Mathlib.Nat.{le_refl}
use atlas_simulator.Model.Types.{
  Resources, Node, IsNode, Job, JobState, running as is_on_node, done,
}
use atlas_simulator.Model.Cluster.{give_back}
use atlas_simulator.Model.Cluster.Moves.{releasable}
use atlas_simulator.Engine.Events.{Event, EventQueue}
use atlas_simulator.Engine.Simulator.Times.{Times-finish}
use atlas_simulator.Engine.Simulator.Ledger.{
  is, count, arrivals, finishes, Phase, queued_one, running_one, unstarted_one, PayloadMatches,
  on_node, part, cores_of, memory_of, one_of, JobsInv, Books, NodesInv, Counts, ClockInv, Times,
  SeqInv, on_node-set, matches-set,
}
use atlas_simulator.Engine.Simulator.Views.{Erased}
use atlas_simulator.Engine.Simulator.Start.{
  sum_of-le-length, running_one-le, parts-le-length, is_zero, is_one,
}

-- The job as `on_finish` writes it.
abbrev pub finish_job : Job → ℕ → Job
finish_job j now = record j { finish_time = now; state = done }

give_back-id : (n : Node) (r : Resources) → (give_back n r).id ≡ n.id
unfolding give_back
give_back-id n r = refl

give_back_exact :
    (n : Node) (r : Resources)
    → IsNode n
    → n.free.cores + r.cores ≤ n.capacity.cores
    → n.free.memory_mb + r.memory_mb ≤ n.capacity.memory_mb
    → 0 < n.running_jobs
    → n.running_jobs < u32_mod
    → give_back n r ≡ record n {
      free = record { cores = n.free.cores + r.cores; memory_mb = n.free.memory_mb + r.memory_mb };
      running_jobs = n.running_jobs - 1;
    }
unfolding give_back
give_back_exact n r v h k some_jobs few = ground (
  arith,
  add32_exact n.free.cores r.cores,
  add64_exact n.free.memory_mb r.memory_mb,
  sub32_exact n.running_jobs 1,
)

done_runs : (i j : Job) → i ≡ j → j.state ≡ done → i.state ≡ is_on_node → ⊥
done_runs i j e ends on_it =
    let same : i.state ≡ j.state = ap (λ (k : Job). k.state) e in
    let clash : done ≡ is_on_node = sym ends ∙ sym same ∙ on_it in cc

Phase-of :
    (j : Job) (a w o f : ℕ)
    → j.state ≡ is_on_node
    → Phase j.state a w o f
    → Phase is_on_node a w o f
Phase-of j a w o f e p = subst (λ state. Phase state a w o f) e p

module _ (jobs : List Job) (on on' : List ℕ) (id : ℕ) (j : Job) (now : ℕ)
    (at : get_elem? jobs id ≡ some j) (runs : j.state ≡ is_on_node) (r : Erased id on on')
    (once : count id on ≡ 1) where
  abbrev pub jobs_after : List Job
  jobs_after = set jobs id (finish_job j now)

  unstarted_after : sum_of unstarted_one jobs_after ≡ sum_of unstarted_one jobs
  unstarted_after = ground (arith, sum_of-set unstarted_one jobs id j (finish_job j now) at)

  queued_after : sum_of queued_one jobs_after ≡ sum_of queued_one jobs
  queued_after = ground (arith, sum_of-set queued_one jobs id j (finish_job j now) at)

  running_after : sum_of running_one jobs_after + 1 ≡ sum_of running_one jobs
  running_after = ground (arith, sum_of-set running_one jobs id j (finish_job j now) at)

  absent : count id on' ≡ 0
  absent = omega (arith, once, r.sums (is id), is_one id)

  pub JobsInv-finish : JobsInv jobs → JobsInv jobs_after
  JobsInv-finish v = record {
    ids = λ x i here. elim (get_elem?-set_cases jobs id x (finish_job j now) i here) [
      | inl (same, new) ↦ rw new (v.ids id j at ∙ sym same)
      | inr (other, old) ↦ v.ids x i old
    ];
    few = omega (arith, length-set jobs id (finish_job j now), v.few);
  }

  -- What the jobs on a node hold, less the job that ends.
  on_node-finish :
      (f : Job → ℕ) (k : ℕ)
      → sum_of (on_node f k jobs) on
        ≡ (if j.node == k then f j else 0) + sum_of (on_node f k jobs_after) on'
  on_node-finish f k = omega (
    arith,
    r.sums (on_node f k jobs),
    ap (part f k) at,
    on_node-set f k jobs id (finish_job j now) on' absent,
  )

  module _ (nodes : List Node) (n : Node) (there : get_elem? nodes j.node ≡ some n)
      (w : JobsInv jobs) (number : length on ≡ sum_of running_one jobs)
      (v : NodesInv nodes jobs on) where
    n-IsNode : IsNode n
    n-IsNode = All-get_elem? IsNode nodes j.node v.nodes_ok there

    books : Books n j.node jobs on
    books = v.books j.node n there

    self : (j.node == j.node) ≡ true
    self = (==_iff j.node j.node).1 refl

    number_fits : n.running_jobs < u32_mod
    number_fits = omega (
      arith,
      books.number,
      parts-le-length one_of j.node jobs on (λ i. le_refl 1),
      sum_of-le-length running_one jobs running_one-le,
      w.few,
      number,
    )

    some_jobs : 0 < n.running_jobs
    some_jobs = ground (arith, books.number, on_node-finish one_of j.node, self)

    cores_back : n.free.cores + j.request.cores ≤ n.capacity.cores
    cores_back = ground (arith, books.cores, on_node-finish cores_of j.node, self)

    memory_back : n.free.memory_mb + j.request.memory_mb ≤ n.capacity.memory_mb
    memory_back = ground (arith, books.memory, on_node-finish memory_of j.node, self)

    exact : give_back n j.request ≡ record n {
      free = record {
        cores = n.free.cores + j.request.cores;
        memory_mb = n.free.memory_mb + j.request.memory_mb;
      };
      running_jobs = n.running_jobs - 1;
    }
    exact = give_back_exact n j.request n-IsNode cores_back memory_back some_jobs number_fits

    pub can_release : releasable n j.request ≡ true
    can_release =
        let ok = n-IsNode in
        ground (
          arith,
          ok,
          some_jobs,
          cores_back,
          memory_back,
          sub32_exact n.capacity.cores n.free.cores,
          sub64_exact n.capacity.memory_mb n.free.memory_mb,
        )

    Books-here : Books (give_back n j.request) j.node jobs_after on'
    Books-here = rw exact (record {
      cores = ground (arith, books.cores, self, on_node-finish cores_of j.node);
      memory = ground (arith, books.memory, self, on_node-finish memory_of j.node);
      number = ground (arith, books.number, self, on_node-finish one_of j.node);
    })

    Books-elsewhere : (k : ℕ) (m : Node) → k ≢ j.node → Books m k jobs on → Books m k jobs_after on'
    Books-elsewhere k m other b = record {
      cores = ground (arith, b.cores, on_node-finish cores_of k);
      memory = ground (arith, b.memory, on_node-finish memory_of k);
      number = ground (arith, b.number, on_node-finish one_of k);
    }

    IsNode-after : IsNode (give_back n j.request)
    IsNode-after = rw exact (omega (arith, n-IsNode, cores_back, memory_back))

    pub NodesInv-finish : NodesInv (set nodes j.node (give_back n j.request)) jobs_after on'
    NodesInv-finish =
        let same_length = length-set nodes j.node (give_back n j.request) in
        record {
          nodes_ok = All-set IsNode nodes j.node _ v.nodes_ok IsNode-after;
          dense = λ i m here. elim (get_elem?-set_cases nodes j.node i _ m here) [
            | inl (same, new) ↦
                rw new (give_back-id n j.request ∙ v.dense j.node n there ∙ sym same)
            | inr (other, old) ↦ v.dense i m old
          ];
          few = omega (arith, same_length, v.few);
          books = λ i m here. elim (get_elem?-set_cases nodes j.node i _ m here) [
            | inl (same, new) ↦ rw (new, same) Books-here
            | inr (other, old) ↦ Books-elsewhere i m other (v.books i m old)
          ];
          placed = λ x i here on_it.
              elim (get_elem?-set_cases jobs id x (finish_job j now) i here) [
                | inl (same, new) ↦ absurd (done_runs i (finish_job j now) new refl on_it)
                | inr (other, old) ↦ omega (arith, same_length, v.placed x i old on_it)
              ];
        }

  module _ (pend : List ℕ) (heap heap' : List Event)
      (fewer : (x : ℕ) → finishes x heap ≡ is x id + finishes x heap')
      (same : (x : ℕ) → arrivals x heap ≡ arrivals x heap')
      (matching : All (λ e. PayloadMatches jobs e.payload) heap') where
    pub Counts-finish : Counts jobs pend on heap → Counts jobs_after pend on' heap'
    Counts-finish v =
        let same_length = length-set jobs id (finish_job j now) in
        let before =
          Phase-of j (arrivals id heap) (count id pend) (count id on) (finishes id heap) runs
            (v.phases id j at) in
        record {
          pend_in = subst (λ n. All (λ x. x < n) pend) (sym same_length) v.pend_in;
          on_in =
              subst (λ n. All (λ x. x < n) on') (sym same_length)
                (r.inside (λ x. x < length jobs) v.on_in);
          matches =
              matches-set jobs id (finish_job j now) heap'
                (omega (arith, before, fewer id, is_one id)) matching;
          phases = λ x i there. elim (get_elem?-set_cases jobs id x (finish_job j now) i there) [
            | inl (here, new) ↦ rw new (
                subst
                  (λ y.
                    Phase done (arrivals y heap') (count y pend) (count y on') (finishes y heap'))
                  (sym here) (omega (arith, before, fewer id, same id, is_one id, absent)))
            | inr (other, old) ↦ Phase-other x i.state other (v.phases x i old)
          ];
          on_number = omega (arith, r.shorter, v.on_number, running_after);
        }
      where
        Phase-other :
            (x : ℕ) (state : JobState)
            → x ≢ id
            → Phase state (arrivals x heap) (count x pend) (count x on) (finishes x heap)
            → Phase state (arrivals x heap') (count x pend) (count x on') (finishes x heap')
        Phase-other x state other p =
            let zero_here = is_zero x id other in
            let a : arrivals x heap' ≡ arrivals x heap = sym (same x) in
            let c : count x on' ≡ count x on = omega (arith, r.sums (is x), zero_here) in
            let f : finishes x heap' ≡ finishes x heap = omega (arith, fewer x, zero_here) in
            rw (a, c, f) p

  pub ClockInv-finish :
      (time checked : ℕ) (heap : List Event)
      → time ≡ now
      → now ≡ j.start_time + j.duration
      → ClockInv time checked jobs heap
      → ClockInv time checked jobs_after heap
  ClockInv-finish time checked heap same ends v = record {
    to_come = v.to_come;
    event_room = rw unstarted_after v.event_room;
    room = rw unstarted_after v.room;
    checked_in = v.checked_in;
    times =
        subst (λ t. Times t jobs_after heap) (sym same)
          (Times-finish now jobs id j heap at runs ends
            (subst (λ t. Times t jobs heap) same v.times));
  }

  pub SeqInv-finish : (q : EventQueue) → SeqInv q jobs → SeqInv q jobs_after
  SeqInv-finish q v = record {
    is_queue = v.is_queue;
    seqs = omega (arith, v.seqs, queued_after, length-set jobs id (finish_job j now));
  }
