-- ===== src/Engine/Simulator/Popped.antt =====
-- What taking an event off the queue of src/atlas/engine/simulator.cpp leaves of the ledger.
use atlas_simulator.Prelude.{
  ℕ, ◌+◌, ◌≤◌, ◌<◌, ◌≡◌, refl, ap, subst, List, [], ◌∷◌, ◌++◌, some, arith, All, All-append, sum_of,
  sum_of-append, sum_of-set, get_elem?, set, length, u64_mod,
}
use atlas_simulator.Model.Types.{Job, JobState, queued, running as is_on_node, done}
use atlas_simulator.Engine.Events.{job_arrival, Event, EventQueue}
use atlas_simulator.Engine.Events.Order.{Popped, Before}
use atlas_simulator.Engine.Simulator.Ledger.{
  is, count, arrivals, finishes, arrivals_in, finishes_in, Phase, unstarted_one, PayloadMatches,
  Counts, ClockInv, SeqInv,
}
use atlas_simulator.Engine.Simulator.Times.{Times-pop}
use atlas_simulator.Engine.Simulator.Finish.{finish_job}
use atlas_simulator.Engine.Simulator.Invariant.{undone_one}

later-All : (e : Event) (es : List Event) → All (Before e) es → All (λ x. e.time ≤ x.time) es
later-All e [] h = tt
later-All e (x ∷ es) h = (ground (arith, h.0), later-All e es h.1)

-- What an event leaves of the clock's part of the ledger.
pub ClockInv-pop :
    (now checked : ℕ) (jobs : List Job) (q : EventQueue) (p : Popped q)
    → ClockInv now checked jobs q.heap
    → ClockInv p.event.time p.event.time jobs p.rest.heap
ClockInv-pop now checked jobs q p v =
    let (room, rooms) = p.all (λ e. e.time + sum_of unstarted_one jobs < u64_mod) v.event_room in
    record {
      to_come = later-All p.event p.rest.heap p.is_pop.earliest;
      event_room = rooms;
      room = room;
      checked_in = omega arith;
      times = Times-pop now jobs q p (p.all (λ e. now ≤ e.time) v.to_come).0 v.times;
    }

pub SeqInv-pop :
    (q : EventQueue) (jobs : List Job) (p : Popped q) → SeqInv q jobs → SeqInv p.rest jobs
SeqInv-pop q jobs p v = record {
  is_queue = p.is_pop.is_queue;
  seqs = omega (arith, p.is_pop.counter, v.seqs);
}

Phase-move :
    (state : JobState) (a w o f a' w' : ℕ)
    → a + w ≡ a' + w'
    → Phase state a w o f
    → Phase state a' w' o f
Phase-move queued a w o f a' w' e p = omega (arith, p)
Phase-move is_on_node a w o f a' w' e p = omega (arith, p)
Phase-move done a w o f a' w' e p = omega (arith, p)

-- An arrival moves its job from the events to the waiting jobs.
pub Counts-arrive :
    (jobs : List Job) (pend on : List ℕ) (q : EventQueue) (p : Popped q) (id : ℕ)
    → p.event.payload ≡ job_arrival id
    → Counts jobs pend on q.heap
    → Counts jobs (pend ++ id ∷ []) on p.rest.heap
Counts-arrive jobs pend on q p id names v =
    let (match, matches) = p.all (λ e. PayloadMatches jobs e.payload) v.matches in
    record {
      pend_in =
          All-append (λ x. x < length jobs) pend (id ∷ []) v.pend_in
            (subst (PayloadMatches jobs) names match, tt);
      on_in = v.on_in;
      matches = matches;
      phases = λ x j at.
          let f_same : finishes x q.heap ≡ finishes x p.rest.heap =
            omega (arith, p.sums (λ e. finishes_in x e.payload), ap (finishes_in x) names) in
          rw (← f_same) (
            Phase-move j.state _ _ _ _ (arrivals x p.rest.heap) (count x (pend ++ id ∷ []))
              (omega (
                arith,
                p.sums (λ e. arrivals_in x e.payload),
                ap (arrivals_in x) names,
                sum_of-append (is x) pend (id ∷ []),
              ))
              (v.phases x j at));
      on_number = v.on_number;
    }

-- A job with an end to come runs, and is listed once.
pub Phase-ending :
    (state : JobState) (a w o f : ℕ) → Phase state a w o f → 0 < f → (state ≡ is_on_node) × (o ≡ 1)
Phase-ending queued a w o f p h = absurd (omega arith)
Phase-ending is_on_node a w o f p h = (refl, omega arith)
Phase-ending done a w o f p h = absurd (omega arith)

pub undone_after :
    (jobs : List Job) (id : ℕ) (j : Job) (now : ℕ)
    → get_elem? jobs id ≡ some j
    → j.state ≡ is_on_node
    → sum_of undone_one (set jobs id (finish_job j now)) + 1 ≡ sum_of undone_one jobs
undone_after jobs id j now at runs =
    ground (arith, sum_of-set undone_one jobs id j (finish_job j now) at)
