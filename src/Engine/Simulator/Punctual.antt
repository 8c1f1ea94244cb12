-- ===== src/Engine/Simulator/Punctual.antt =====
-- The times that a run of src/atlas/engine/simulator.cpp leaves in its jobs, and the samples that
-- src/atlas/metrics/time_sample.cpp takes of them.
use atlas_simulator.Prelude.{
  ℕ, ◌+◌, ◌-◌, ◌≤◌, ◌<◌, ◌≡◌, ap, sym, subst, ◌∙◌, inl, inr, List, Option, some, arith, get_elem?,
  map, u64_mod,
}
use atlas_simulator.Model.Types.{Job, JobState, queued, running as is_on_node, done}
use atlas_simulator.Model.Cluster.{Cluster}
use atlas_simulator.Metrics.Samples.{turnaround_times}
use atlas_simulator.Metrics.Samples.Times.{turnaround_times_exact}
use atlas_simulator.Sched.Place.{Scheduler}
use atlas_simulator.Sched.Queue.{QueuePolicy}
use atlas_simulator.Io.Trace.{TraceWriter}
use atlas_simulator.Engine.Simulator.{Simulator, make_simulator, run}
use atlas_simulator.Engine.Simulator.Ledger.{JobTimes, arrivals}
use atlas_simulator.Engine.Simulator.Seed.{CanRun}
use atlas_simulator.Engine.Simulator.Outcome.{run-Ran}
use atlas_simulator.Engine.Simulator.Complete.{EachFitsAlone, run-Completes}

-- A job was served in full, without a break, between its submission and the end of the run.
pub record IsServed (end : ℕ) (j : Job) : Type 0 where
  pub submitted_first : j.submit_time ≤ j.start_time
  pub in_full : j.finish_time ≡ j.start_time + j.duration
  pub by_end : j.finish_time ≤ end

JobTimes-IsServed :
    (state : JobState) (arriving now : ℕ) (j : Job)
    → state ≡ done
    → JobTimes state arriving now j
    → IsServed now j
JobTimes-IsServed queued arriving now j e h = absurd (cc (e))
JobTimes-IsServed is_on_node arriving now j e h = absurd (cc (e))
JobTimes-IsServed done arriving now j e h = record {
  submitted_first = h.0;
  in_full = h.1;
  by_end = h.2;
}

JobTimes-waits :
    (state : JobState) (arriving now : ℕ) (j : Job)
    → state ≡ queued
    → arriving ≡ 0
    → JobTimes state arriving now j
    → j.submit_time ≤ now
JobTimes-waits queued arriving now j e none_to_come (inl h) = absurd (omega arith)
JobTimes-waits queued arriving now j e none_to_come (inr h) = h
JobTimes-waits is_on_node arriving now j e none_to_come h = absurd (cc (e))
JobTimes-waits done arriving now j e none_to_come h = absurd (cc (e))

-- The run comes back, and its end is a time on the clock by which all was done that was done.
pub record IsOnTime (r : Option Simulator) : Type 0 where
  pub final : Simulator
  pub result : r ≡ some final
  pub end_fits : final.sim_end_time < u64_mod
  pub served :
      (id : ℕ) (j : Job)
      → get_elem? final.jobs id ≡ some j
      → j.state ≡ done
      → IsServed final.sim_end_time j
  pub waiting :
      (id : ℕ) (j : Job)
      → get_elem? final.jobs id ≡ some j
      → j.state ≡ queued
      → j.submit_time ≤ final.sim_end_time

-- What the sample holds of a job: its wait and its service.
abbrev pub wait_and_service : Job → ℕ
wait_and_service j = (j.start_time - j.submit_time) + j.duration

-- The sample of a run in which every job is done, none before its submission.
pub record HasTurnarounds (r : Option Simulator) : Type 0 where
  pub final : Simulator
  pub result : r ≡ some final
  pub none_skipped : (turnaround_times final.jobs).skipped ≡ 0
  pub times : (turnaround_times final.jobs).times ≡ map wait_and_service final.jobs
  pub after_submission :
      (id : ℕ) (j : Job) → get_elem? final.jobs id ≡ some j → j.submit_time ≤ j.start_time

module _ (cluster : Cluster) (jobs : List Job) (trace : Option TraceWriter)
    (scheduler : Option Scheduler) (policy : Option QueuePolicy)
    (h : CanRun cluster jobs scheduler) where
  -- A simulator that is built from an unused cluster and at least one queued job, both numbered
  -- from 0 on, with any placement policy, queue policy and trace, and with room on the clock for
  -- the service time of all jobs after the last arrival: `run` comes back with an end below 2^64.
  -- Each job that is done started no earlier than it was submitted, finished when its service time
  -- had passed since its start, and by the end. Each job that still waits was submitted by the end.
  pub run-IsOnTime : IsOnTime (run (make_simulator cluster jobs trace scheduler policy))
  run-IsOnTime =
      let ran = run-Ran cluster jobs trace scheduler policy h in
      let t = ran.idle in
      let e = ran.ended in
      let c = ran.is_idle.inv.clock in
      record {
        final = ran.final;
        result = ran.result;
        end_fits = omega (arith, e.end_time, c.room);
        served = λ id j at is_done.
            subst (λ end. IsServed end j) (sym e.end_time)
              (JobTimes-IsServed j.state _ t.now j is_done
                (c.times.jobs_timed id j (ap (λ js. get_elem? js id) (sym e.jobs) ∙ at)));
        waiting = λ id j at waits. omega (
          arith,
          e.end_time,
          JobTimes-waits j.state _ t.now j waits (ap (arrivals id) ran.is_idle.empty)
              (c.times.jobs_timed id j (ap (λ js. get_elem? js id) (sym e.jobs) ∙ at)),
        );
      }

  -- A simulator that is built from an unused cluster and at least one queued job, both numbered
  -- from 0 on, with any placement policy, queue policy and trace, and with room on the clock for
  -- the service time of all jobs after the last arrival: if each job's request is within the
  -- capacity of some node, `run` comes back with no job started before its submission, and
  -- `turnaround_times` of its jobs skips none and holds for each job the time from its submission to
  -- its start plus its service time.
  pub run-HasTurnarounds :
      EachFitsAlone cluster jobs
      → HasTurnarounds (run (make_simulator cluster jobs trace scheduler policy))
  run-HasTurnarounds each =
      let o = run-IsOnTime in
      let c = run-Completes cluster jobs trace scheduler policy h each in
      let same : c.final ≡ o.final = cc (c.result, o.result) in
      let all_done =
        subst
          (λ (s : Simulator). (id : ℕ) (j : Job) → get_elem? s.jobs id ≡ some j → j.state ≡ done)
          same c.all_done in
      let exact = turnaround_times_exact o.final.jobs all_done wait_and_service (λ id j at.
        let v = o.served id j at (all_done id j at) in
        (
          omega (arith, v.submitted_first, v.in_full),
          omega (arith, v.submitted_first, v.in_full),
          omega (arith, v.by_end, o.end_fits),
        )) in
      record {
        final = o.final;
        result = o.result;
        none_skipped = exact.0;
        times = exact.1;
        after_submission = λ id j at. (o.served id j at (all_done id j at)).submitted_first;
      }
