-- ===== src/Engine/Simulator/Horizon.antt =====
-- A time by which src/atlas/engine/simulator.cpp is through with all events and all jobs that have
-- not started, one after the other.
use atlas_simulator.Prelude.{
  ℕ, ◌+◌, ◌≤◌, ◌≡◌, List, [], ◌∷◌, some, arith, All, sum_of, sum_of-set, get_elem?, set,
}
use atlas_simulator.Model.Types.{Job, queued, running as is_on_node, done}
use atlas_simulator.Engine.Events.{Event, EventQueue}
use atlas_simulator.Engine.Events.Order.{Popped}
use atlas_simulator.Engine.Simulator.{start_job}
use atlas_simulator.Engine.Simulator.Ledger.{unstarted_one}

abbrev pub unstarted : List Job → ℕ
unstarted = sum_of unstarted_one

abbrev pub EndsBy : ℕ → ℕ → List Job → List Event → Type 0
EndsBy limit now jobs heap =
    (now + unstarted jobs ≤ limit) × All (λ e. e.time + unstarted jobs ≤ limit) heap

events_by :
    (limit m n : ℕ) (heap : List Event)
    → n ≤ m
    → All (λ e. e.time + m ≤ limit) heap
    → All (λ e. e.time + n ≤ limit) heap
events_by limit m n [] le h = tt
events_by limit m n (e ∷ es) le h = (omega (arith, h.0), events_by limit m n es le h.1)

pub EndsBy-start :
    (limit now node : ℕ) (jobs : List Job) (id : ℕ) (j : Job) (heap : List Event) (e : Event)
    → get_elem? jobs id ≡ some j
    → j.state ≡ queued
    → e.time ≡ now + j.duration
    → EndsBy limit now jobs heap
    → EndsBy limit now (set jobs id (start_job j now node)) (e ∷ heap)
EndsBy-start limit now node jobs id j heap e at waits timed h =
    let less : unstarted (set jobs id (start_job j now node)) + j.duration ≡ unstarted jobs =
      ground (arith, sum_of-set unstarted_one jobs id j (start_job j now node) at) in
    (
      omega (arith, h.0),
      (omega (arith, h.0, timed), events_by limit (unstarted jobs) _ heap (omega arith) h.1),
    )

pub EndsBy-finish :
    (limit now time : ℕ) (jobs : List Job) (id : ℕ) (j : Job) (heap : List Event)
    → get_elem? jobs id ≡ some j
    → j.state ≡ is_on_node
    → EndsBy limit now jobs heap
    → EndsBy limit now (set jobs id (record j { finish_time = time; state = done })) heap
EndsBy-finish limit now time jobs id j heap at runs h =
    let same : unstarted (set jobs id (record j { finish_time = time; state = done }))
        ≡ unstarted jobs =
      ground (
        arith,
        sum_of-set unstarted_one jobs id j (record j { finish_time = time; state = done }) at,
      ) in
    (omega (arith, h.0), events_by limit (unstarted jobs) _ heap (omega arith) h.1)

pub EndsBy-pop :
    (limit now : ℕ) (jobs : List Job) (q : EventQueue) (p : Popped q)
    → EndsBy limit now jobs q.heap
    → EndsBy limit p.event.time jobs p.rest.heap
EndsBy-pop limit now jobs q p h = p.all (λ e. e.time + unstarted jobs ≤ limit) h.1
