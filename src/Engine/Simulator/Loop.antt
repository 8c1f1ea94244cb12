-- ===== src/Engine/Simulator/Loop.antt =====
-- The loop of `run` in src/atlas/engine/simulator.cpp, up to its end.
use atlas_simulator.Prelude.{
  ℕ, zero, suc, ◌<◌, ◌≡◌, refl, ◌∙◌, ◌≢◌, inl, inr, true, false, [], Option, some, arith,
  List-cases, le→leb, ◌>>=◌, add64,
}
use mathlib.Core.Option
use native.Mathlib.Nat.{le_refl, le_of_eq}
use atlas_simulator.Model.Cluster.{total_utilized}
use atlas_simulator.Metrics.Utilization.{UtilizationIntegral, advance}
use atlas_simulator.Metrics.Utilization.Steps.{advance_total}
use atlas_simulator.Io.Trace.{write}
use atlas_simulator.Engine.Events.{sim_end, schedule}
use atlas_simulator.Engine.Events.Order.{pop_only}
use atlas_simulator.Engine.Simulator.{Simulator, run_round, run_loop, visit, on_sim_end}
use atlas_simulator.Engine.Simulator.Invariant.{Inv, Same, Same-trans, work_left}
use atlas_simulator.Engine.Simulator.Run.{idle, Advances, IsIdle, on, run_round-Rounded}

-- The end of a run, behind an idle state: the clock and the integral stand at its time.
pub record Ended (t final : Simulator) : Type 0 where
  pub jobs : final.jobs ≡ t.jobs
  pub cluster : final.cluster ≡ t.cluster
  pub pending : final.pending ≡ t.pending
  pub running : final.running ≡ t.running
  pub now : final.now ≡ t.now
  pub end_time : final.sim_end_time ≡ t.now
  pub ahead : final.backfilled ≡ t.backfilled
  pub checked : final.util.last_checkin ≡ t.now
  pub empty : final.queue.heap ≡ []
  pub before : UtilizationIntegral
  pub advanced : advance t.util t.now (total_utilized t.cluster) ≡ some before
  pub advanced_again : advance before t.now (total_utilized t.cluster) ≡ some final.util

abbrev ending : Simulator → Simulator
ending t = record t { queue = schedule t.queue t.now sim_end }

run_round-ending :
    (t : Simulator)
    → IsIdle t
    → (final : Simulator) × (run_round (ending t) ≡ some (false, final)) × Ended t final
unfolding run_round visit on_sim_end
run_round-ending t h =
    let last = h.inv.clock.checked_in in
    let (util, advanced, checked) = advance_total t.util t.now (total_utilized t.cluster) last in
    let (util', advanced', checked') =
      advance_total util t.now (total_utilized t.cluster) (le_of_eq checked) in
    (
      record t {
        queue = record { heap = []; next_seq = add64 t.queue.next_seq 1 };
        util = util';
        sim_end_time = t.now;
        trace =
            Option.map
              (λ w. write w (record { time = t.now; seq = t.queue.next_seq; payload = sim_end }))
              t.trace;
      },
      rw (pop_only t.queue t.now sim_end h.empty, ◌>>=◌)
          (rw (le→leb t.now t.now (le_refl _)) (rw (advanced, ◌>>=◌) (rw (advanced', ◌>>=◌) refl))),
      record {
        jobs = refl;
        cluster = refl;
        pending = refl;
        running = refl;
        now = refl;
        end_time = refl;
        ahead = refl;
        checked = checked';
        empty = refl;
        before = util;
        advanced = advanced;
        advanced_again = advanced';
      },
    )

-- The state `t` between rounds is reached from another.
pub data Reached (t : Simulator) : Simulator → Type 0 where
  arrived : Inv t t.pending → Reached t t
  round :
      (s next : Simulator)
      → Inv s s.pending
      → Same s next
      → Advances s next
      → Reached t next
      → Reached t s

-- The loop from a state with events to come: it ends behind an idle state.
pub record Ran (s : Simulator) (r : Option Simulator) : Type 0 where
  pub idle : Simulator
  pub final : Simulator
  pub is_idle : IsIdle idle
  pub result : r ≡ some final
  pub ended : Ended idle final
  pub same : Same s idle
  pub path : Reached idle s

run_loop-round :
    (left : ℕ) (s s' : Simulator)
    → s.queue.heap ≢ []
    → run_round s ≡ some (true, s')
    → run_loop (suc left) s ≡ run_loop left s'
unfolding run_loop
run_loop-round left s s' full e = elim (List-cases s.queue.heap) [
  | inl none_left ↦ absurd (full none_left)
  | inr (x, xs, some_left) ↦ rw (some_left, run_loop) (rw (e, ◌>>=◌) refl)
]

run_loop-break :
    (left : ℕ) (s s' : Simulator)
    → s.queue.heap ≢ []
    → run_round s ≡ some (false, s')
    → run_loop (suc left) s ≡ some s'
unfolding run_loop
run_loop-break left s s' full e = elim (List-cases s.queue.heap) [
  | inl none_left ↦ absurd (full none_left)
  | inr (x, xs, some_left) ↦ rw (some_left, run_loop) (rw (e, ◌>>=◌) refl)
]

ending_full : (t : Simulator) → (ending t).queue.heap ≢ []
unfolding schedule
ending_full t e = cc

run_loop-last :
    (left : ℕ) (s t : Simulator)
    → s.queue.heap ≢ []
    → run_round s ≡ some (true, ending t)
    → IsIdle t
    → 0 < left
    → Same s t
    → Reached t s
    → Ran s (run_loop (suc left) s)
run_loop-last zero s t full e h room same path = absurd (omega arith)
run_loop-last (suc left) s t full e h room same path =
    let (final, last, ended) = run_round-ending t h in
    record {
      idle = t;
      final = final;
      is_idle = h;
      result =
          run_loop-round (suc left) s (ending t) full e
          ∙ run_loop-break left (ending t) final (ending_full t) last;
      ended = ended;
      same = same;
      path = path;
    }

Ran-after :
    (s t : Simulator) (r : Option Simulator)
    → Inv s s.pending
    → Same s t
    → Advances s t
    → Ran t r
    → Ran s r
Ran-after s t r v same moves ran = record {
  idle = ran.idle;
  final = ran.final;
  is_idle = ran.is_idle;
  result = ran.result;
  ended = ran.ended;
  same = Same-trans s t ran.idle same ran.same;
  path = round s t v same moves ran.path;
}

pub run_loop-Ran :
    (left : ℕ) (s : Simulator)
    → Inv s s.pending
    → s.queue.heap ≢ []
    → work_left s < left
    → Ran s (run_loop left s)
run_loop-Ran zero s v full enough = absurd (omega arith)
run_loop-Ran (suc left) s v full enough = elim (run_round-Rounded s v full) [
  | on next e v' full' work same moves ↦
      rw (run_loop-round left s next full e)
        (Ran-after s next _ v same moves (run_loop-Ran left next v' full' (omega (arith, work))))
  | idle t h e work same moves ↦
      run_loop-last left s t full e h (omega (arith, work)) same
        (round s t v same moves (arrived h.inv))
]
