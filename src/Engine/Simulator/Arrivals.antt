-- ===== src/Engine/Simulator/Arrivals.antt =====
-- The first loop of `run` in src/atlas/engine/simulator.cpp, which schedules the arrivals.
use atlas_simulator.Prelude.{
  ℕ, ◌+◌, ◌<◌, ◌≡◌, refl, List, [], ◌∷◌, Option, arith, All, sum_of, length, u64_mod, add64,
  add64_exact,
}
use mathlib.Core.Option
use atlas_simulator.Model.Types.{Job}
use atlas_simulator.Io.Trace.{TraceWriter, job_spec}
use atlas_simulator.Engine.Events.{job_arrival, Event, EventQueue, schedule}
use atlas_simulator.Engine.Events.Order.{IsQueue, schedule-IsQueue}
use atlas_simulator.Engine.Simulator.{Simulator, seed}

pub seed_queue : List Job → EventQueue → EventQueue
seed_queue [] q = q
seed_queue (j ∷ js) q = seed_queue js (schedule q j.submit_time (job_arrival j.id))

pub seed_trace : List Job → Option TraceWriter → Option TraceWriter
seed_trace [] t = t
seed_trace (j ∷ js) t = seed_trace js (Option.map (λ w. job_spec w j) t)

-- The loop touches the events and the trace only.
pub seed_lem :
    (js : List Job) (s : Simulator)
    → seed js s ≡ record s { queue = seed_queue js s.queue; trace = seed_trace js s.trace }
unfolding seed seed_queue seed_trace
seed_lem [] s = refl
seed_lem (j ∷ js) s = seed_lem js _

pub seed-sums :
    (f : Event → ℕ) (g : Job → ℕ) (js : List Job) (q : EventQueue)
    → ((j : Job) (seq : ℕ)
        → f (record { time = j.submit_time; seq = seq; payload = job_arrival j.id }) ≡ g j)
    → sum_of f (seed_queue js q).heap ≡ sum_of f q.heap + sum_of g js
unfolding seed_queue schedule
seed-sums f g [] q h = omega arith
seed-sums f g (j ∷ js) q h = omega (arith, seed-sums f g js _ h, h j q.next_seq)

pub seed-All :
    (P : Event → Type 0) (js : List Job) (q : EventQueue)
    → All
        (λ j.
          (seq : ℕ) → P (record { time = j.submit_time; seq = seq; payload = job_arrival j.id }))
        js
    → All P q.heap
    → All P (seed_queue js q).heap
unfolding seed_queue schedule
seed-All P [] q h k = k
seed-All P (j ∷ js) q h k = seed-All P js _ h.1 (h.0 q.next_seq, k)

pub seed-IsQueue :
    (js : List Job) (q : EventQueue)
    → IsQueue q
    → q.next_seq + length js < u64_mod
    → IsQueue (seed_queue js q) × ((seed_queue js q).next_seq ≡ q.next_seq + length js)
unfolding seed_queue schedule
seed-IsQueue [] q v room = (v, omega arith)
seed-IsQueue (j ∷ js) q v room =
    let grown : add64 q.next_seq 1 ≡ q.next_seq + 1 = add64_exact q.next_seq 1 (omega arith) in
    let (w, e) =
      seed-IsQueue js (schedule q j.submit_time (job_arrival j.id))
        (schedule-IsQueue q j.submit_time (job_arrival j.id) v (omega arith))
        (omega (arith, grown)) in
    (w, omega (arith, e, grown))

-- In a list that is numbered from `k` on, an id below `k` does not stand, and another stands once.
