-- ===== src/Engine/Events/Tests.antt =====
-- A queue of src/atlas/engine/event_queue.hpp with two events at one time.
use atlas_simulator.Prelude.{◌≡◌, ◌≢◌, some, [], ◌∷◌, arith}
use atlas_simulator.Engine.Events.{job_arrival, job_finish, Event, EventQueue, pop}
use atlas_simulator.Engine.Events.Order.{IsQueue, IsPop, pop-IsPop}

abbrev two_events : EventQueue
two_events = record {
  heap =
      (record { time = 7; seq = 1; payload = job_finish 0 0 })
      ∷ (record { time = 7; seq = 0; payload = job_arrival 1 })
      ∷ [];
  next_seq = 2;
}

two_events-IsQueue : IsQueue two_events
two_events-IsQueue = record {
  distinct = (((λ e. omega arith), tt), (tt, tt));
  given = (omega arith, (omega arith, tt));
}

two_events_full : two_events.heap ≢ []
two_events_full e = cc

pop-IsPop_example :
    (e : Event) × (q' : EventQueue) × (pop two_events ≡ some (e, q')) × IsPop two_events e q'
pop-IsPop_example = pop-IsPop two_events two_events-IsQueue two_events_full
