-- ===== src/Engine/Simulator/Run.antt =====
-- The loop of `run` in src/atlas/engine/simulator.cpp, from any state of the ledger.
use atlas_simulator.Prelude.{
  ℕ, suc, ◌≤◌, ◌≡◌, refl, ap, sym, subst, ◌∙◌, ◌≢◌, Bool, true, false, List, [], ◌∷◌, Option, some,
  arith, if◌then◌else◌, le→leb, ◌>>=◌,
}
use mathlib.Core.Option
use atlas_simulator.Model.Cluster.{total_utilized}
use atlas_simulator.Model.Types.{Resources}
use atlas_simulator.Metrics.Utilization.{UtilizationIntegral, advance}
use atlas_simulator.Metrics.Utilization.Steps.{advance_total}
use atlas_simulator.Io.Trace.{TraceWriter, write}
use atlas_simulator.Sched.Queue.{fifo}
use atlas_simulator.Engine.Events.{EventPayload, job_arrival, job_finish, sim_end, Event, schedule}
use atlas_simulator.Engine.Events.Order.{Popped, pop-Popped}
use atlas_simulator.Engine.Board.{Steps}
use atlas_simulator.Engine.Simulator.{
  Simulator, run_round, visit, end_if_idle, on_arrival, on_finish,
}
use atlas_simulator.Engine.Simulator.Ledger.{PayloadMatches}
use atlas_simulator.Engine.Simulator.Invariant.{Inv, Same, work_left}
use atlas_simulator.Engine.Simulator.Drain.{HeadBlocked}
use atlas_simulator.Engine.Simulator.Boards.{board, rules}
use atlas_simulator.Engine.Simulator.Horizon.{EndsBy}
use atlas_simulator.Engine.Simulator.Spent.{spent}
use atlas_simulator.Engine.Simulator.Events.{Handled, popped, on_arrival-Handled, on_finish-Handled}

-- Nothing is to come any more.
pub record IsIdle (t : Simulator) : Type 0 where
  pub inv : Inv t t.pending
  pub empty : t.queue.heap ≡ []
  pub blocked : HeadBlocked t.jobs t.cluster.nodes t.pending

-- What a round does to the clock and to the integral.
pub record Advances (s next : Simulator) : Type 0 where
  pub later : s.now ≤ next.now
  pub metered : advance s.util next.now (total_utilized s.cluster) ≡ some next.util
  pub spent_same : (g : Resources → ℕ) → spent g next.now next.jobs ≡ spent g next.now s.jobs
  pub policy : next.queue_policy ≡ s.queue_policy
  pub in_order : s.queue_policy ≡ fifo → next.backfilled ≡ s.backfilled
  pub bounded :
      (limit : ℕ)
      → EndsBy limit s.now s.jobs s.queue.heap
      → EndsBy limit next.now next.jobs next.queue.heap
  pub steps : Steps (rules s.jobs s.cluster.nodes) (board next.now next.jobs) (board s.now s.jobs)

-- A round goes on with events to come, or with the end scheduled after an idle state.
pub data Rounded (s : Simulator) (r : Option (Bool × Simulator)) : Type 0 where
  on :
      (next : Simulator)
      → r ≡ some (true, next)
      → Inv next next.pending
      → next.queue.heap ≢ []
      → suc (work_left next) ≡ work_left s
      → Same s next
      → Advances s next
      → Rounded s r
  idle :
      (t : Simulator)
      → IsIdle t
      → r ≡ some (true, record t { queue = schedule t.queue t.now sim_end })
      → suc (work_left t) ≡ work_left s
      → Same s t
      → Advances s t
      → Rounded s r

end_if_idle-Rounded :
    (s t : Simulator) (heap : List Event) (r : Option (Bool × Simulator))
    → t.queue.heap ≡ heap
    → r ≡ some (true, end_if_idle t)
    → Inv t t.pending
    → HeadBlocked t.jobs t.cluster.nodes t.pending
    → suc (work_left t) ≡ work_left s
    → Same s t
    → Advances s t
    → Rounded s r
unfolding end_if_idle
end_if_idle-Rounded s t [] r e made v blocked work same moves =
    idle t (record { inv = v; empty = e; blocked = blocked }) (made ∙ rw e refl) work same moves
end_if_idle-Rounded s t (x ∷ xs) r e made v blocked work same moves =
    on t (made ∙ rw e refl) v (λ none_left. cc) work same moves

-- The rest of a round, once the visitor has handled an event that is not the end.
Handled-on :
    (s : Simulator) (time : ℕ) (util : UtilizationIntegral) (m : Option Simulator)
    → s.now ≤ time
    → advance s.util time (total_utilized s.cluster) ≡ some util
    → Handled s time util m
    → Rounded s (do
      (should_end, s') ← (do s' ← m; some (false, s'))
      if should_end then some (false, s') else some (true, end_if_idle s'))
Handled-on s time util m le advanced h =
    rw (h.result, ◌>>=◌)
      (end_if_idle-Rounded s h.next h.next.queue.heap _ refl refl h.inv h.blocked h.work h.same
        (record {
          later = omega (arith, h.now);
          metered =
              ap (λ t. advance s.util t (total_utilized s.cluster)) h.now
              ∙ (advanced ∙ ap some (sym h.meter));
          spent_same = λ g. h.spent_same g ∙ ap (λ t. spent g t s.jobs) (sym h.now);
          policy = h.policy;
          in_order = h.in_order;
          bounded = h.bounded;
          steps = h.steps;
        }))

visit_on :
    (s : Simulator) (v : Inv s s.pending) (p : Popped s.queue) (trace : Option TraceWriter)
    (util : UtilizationIntegral) (checked : util.last_checkin ≡ p.event.time)
    (advanced : advance s.util p.event.time (total_utilized s.cluster) ≡ some util)
    (payload : EventPayload)
    → s.now ≤ p.event.time
    → p.event.payload ≡ payload
    → Rounded s (do
      (should_end, s') ← visit (popped s v p trace util checked) payload
      if should_end then some (false, s') else some (true, end_if_idle s'))
unfolding visit
visit_on s v p trace util checked advanced (job_arrival id) le e =
    Handled-on s p.event.time util (on_arrival (popped s v p trace util checked) id) le advanced
      (on_arrival-Handled s v p trace util checked id e)
visit_on s v p trace util checked advanced (job_finish id node) le e =
    Handled-on s p.event.time util (on_finish (popped s v p trace util checked) id node) le advanced
      (on_finish-Handled s v p trace util checked id node e)
visit_on s v p trace util checked advanced sim_end le e = absurd (
    subst (PayloadMatches s.jobs) e
      (p.all (λ e. PayloadMatches s.jobs e.payload) v.counts.matches).0)

pub run_round-Rounded :
    (s : Simulator) → Inv s s.pending → s.queue.heap ≢ [] → Rounded s (run_round s)
unfolding run_round
run_round-Rounded s v full =
    let p = pop-Popped s.queue v.seqs.is_queue full in
    let in_time : s.now ≤ p.event.time = (p.all (λ e. s.now ≤ e.time) v.clock.to_come).0 in
    let (util, advanced, checked) =
      advance_total s.util p.event.time (total_utilized s.cluster)
        (omega (arith, v.clock.checked_in)) in
    rw (p.result, ◌>>=◌)
      (rw (le→leb s.now p.event.time in_time) (
        rw (advanced, ◌>>=◌)
          (visit_on s v p (Option.map (λ w. write w p.event) s.trace) util checked advanced
            p.event.payload in_time refl)))
