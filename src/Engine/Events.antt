-- ===== src/Engine/Events.antt =====
-- src/atlas/engine/event.hpp and event_queue.hpp. The heap is the list of the events in it, in no
-- order; `top()` is the element that the comparison ranks above the others.
mod Tests
pub mod Order
use atlas_simulator.Prelude.{
  ℕ, ◌≡◌, Bool, List, [], ◌∷◌, Option, none, some, ltb, ◌==◌, if◌then◌else◌, add64,
}

pub data EventPayload : Type 0 where
  job_arrival : (job : ℕ) → EventPayload
  job_finish : (job node : ℕ) → EventPayload
  sim_end : EventPayload

pub record Event : Type 0 where
  pub time : ℕ
  pub seq : ℕ
  pub payload : EventPayload

-- EarliestFirst: `a` is less important than `b`.
unfoldable pub earliest_first : Event → Event → Bool
earliest_first a b = if a.time == b.time then ltb b.seq a.seq else ltb b.time a.time

pub record EventQueue : Type 0 where
  pub heap : List Event
  pub next_seq : ℕ

abbrev pub no_events : EventQueue
no_events = record { heap = []; next_seq = 0 }

unfoldable pub schedule : EventQueue → ℕ → EventPayload → EventQueue
schedule q time payload = record {
  heap = (record { time = time; seq = q.next_seq; payload = payload }) ∷ q.heap;
  next_seq = add64 q.next_seq 1;
}

-- The most important event of a non-empty heap, and the rest.
pub take_top : Event → List Event → Event × List Event
take_top best [] = (best, [])
take_top best (e ∷ es) =
    let (top, rest) = take_top (if earliest_first best e then e else best) es in
    (top, (if earliest_first best e then best else e) ∷ rest)

-- `none` is the failed assertion that the queue is not empty.
unfoldable pub pop : EventQueue → Option (Event × EventQueue)
unfolding take_top
pop q = elim q.heap [
  | [] ↦ none
  | e ∷ es ↦
      let (top, rest) = take_top e es in some (top, record { heap = rest; next_seq = q.next_seq })
]
