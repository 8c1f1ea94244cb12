-- ===== src/Io/Report/Lines.antt =====
-- What `report` of src/atlas/io/report.cpp prints of a whole run.
use atlas_simulator.Prelude.{
  ℕ, ◌+◌, ◌*◌, ◌<◌, ◌≡◌, ◌≢◌, refl, ap, sym, inl, inr, List, [], ◌∷◌, Option, some, arith, length,
  map, ◌>>=◌, u64_mod, List-cases,
}
use atlas_simulator.Doubles.{Doubles}
use atlas_simulator.Model.Types.{Job}
use atlas_simulator.Model.Cluster.{Cluster}
use atlas_simulator.Metrics.Samples.Times.{wait_of}
use atlas_simulator.Metrics.Percentiles.{NthElement, Percentiles}
use atlas_simulator.Metrics.Percentiles.Nearest.{IsPercentile, percentiles-HasPercentiles}
use atlas_simulator.Sched.Place.{Scheduler}
use atlas_simulator.Sched.Queue.{QueuePolicy}
use atlas_simulator.Io.Trace.{TraceWriter}
use atlas_simulator.Io.Summary.{seconds}
use atlas_simulator.Io.Report.{Quantiles, RunReport, quantiles_of, report_sample, report}
use atlas_simulator.Engine.Simulator.{Simulator, make_simulator, run}
use atlas_simulator.Engine.Simulator.Seed.{CanRun}
use atlas_simulator.Engine.Simulator.Punctual.{wait_and_service}
use atlas_simulator.Engine.Simulator.Complete.{length-map}
use atlas_simulator.Engine.Simulator.Readings.{CanMeasure, utilized, run-Readings}

abbrev pub in_seconds : {W : Type 0} → Doubles W → Percentiles → Quantiles W
in_seconds d p = record { p50 = seconds d p.p50; p95 = seconds d p.p95; p99 = seconds d p.p99 }

abbrev pub AreRanks : Percentiles → List ℕ → Type 0
AreRanks p times =
    IsPercentile 50 p.p50 times × IsPercentile 95 p.p95 times × IsPercentile 99 p.p99 times

record Quotes {W : Type 0} (d : Doubles W) (times : List ℕ) (r : Option (Option (Quantiles W)))
    : Type 0 where
  ranks : Percentiles
  result : r ≡ some (some (in_seconds d ranks))
  p50_right : IsPercentile 50 ranks.p50 times
  p95_right : IsPercentile 95 ranks.p95 times
  p99_right : IsPercentile 99 ranks.p99 times

-- What is printed of a run in which every job is done.
pub record Reports {W : Type 0} (d : Doubles W) (nth : NthElement) (cluster : Cluster)
    (jobs : List Job) (r : Option Simulator) : Type 0 where
  pub final : Simulator
  pub result : r ≡ some final
  pub lines : RunReport W
  pub printed : report d nth final ≡ some lines
  pub span : lines.span ≡ seconds d final.sim_end_time
  pub util : lines.util ≡ utilized d cluster jobs final.sim_end_time
  pub ranks : Percentiles
  pub turnaround : lines.turnaround ≡ record { quantiles = some (in_seconds d ranks); censored = 0 }
  pub turnaround_right : AreRanks ranks (map wait_and_service final.jobs)
  pub wait_ranks : Percentiles
  pub queue_wait :
      lines.queue_wait ≡ record { quantiles = some (in_seconds d wait_ranks); censored = 0 }
  pub queue_wait_right : AreRanks wait_ranks (map wait_of final.jobs)

pub map_full : (f : Job → ℕ) (js : List Job) → 0 < length js → map f js ≢ []
map_full f [] some_jobs e = omega arith
map_full f (j ∷ js) some_jobs e = cc

module _ {W : Type 0} (d : Doubles W) (nth : NthElement) where
  quantiles_of-Quotes :
      (times : List ℕ)
      → times ≢ []
      → length times * 100 + 99 < u64_mod
      → Quotes d times (quantiles_of d nth times)
  unfolding quantiles_of
  quantiles_of-Quotes [] full small = absurd (full refl)
  quantiles_of-Quotes (t ∷ ts) full small =
      let p = percentiles-HasPercentiles nth (t ∷ ts) full small in
      record {
        ranks = p.found;
        result = rw p.result refl;
        p50_right = p.p50_right;
        p95_right = p.p95_right;
        p99_right = p.p99_right;
      }

  module _ (cluster : Cluster) (jobs : List Job) (trace : Option TraceWriter)
      (scheduler : Option Scheduler) (policy : Option QueuePolicy)
      (h : CanRun cluster jobs scheduler) where
    -- A simulator that is built from an unused cluster and at least one queued job, both numbered
    -- from 0 on, with any placement policy, queue policy and trace, and with room on the clock for
    -- the service time of all jobs after the last arrival. Let each job's request be within the
    -- capacity of some node, the jobs have some service time and the cluster some of both
    -- resources, the total capacity fit its types, the time from 0 to the last submission plus the
    -- service time of all jobs end before the greatest tick and be less than 2^64 when multiplied
    -- by the total capacity, and the jobs' requests times their service times sum to less than
    -- 2^64. Then `run` comes back, and `report` of it prints its lines, with no assertion failed.
    -- The span is the end of the run, the utilization divides all requests times service times by
    -- the total capacity times that end, and the quantiles are, in seconds, nearest-rank
    -- percentiles of the jobs' waits plus service times, and of their waits. None is censored.
    pub run-Reports :
        (last : ℕ)
        → CanMeasure cluster jobs last
        → Reports d nth cluster jobs (run (make_simulator cluster jobs trace scheduler policy))
    unfolding report report_sample
    run-Reports last c =
        let v = run-Readings d cluster jobs trace scheduler policy h last c in
        let s = v.final in
        let some_jobs : 0 < length jobs = elim (List-cases jobs) [
          | inl e ↦ absurd (h.some_jobs e)
          | inr (j, js, e) ↦ omega (arith, ap length e)
        ] in
        let quotes : (f : Job → ℕ) → Quotes d (map f s.jobs) (quantiles_of d nth (map f s.jobs)) =
          λ f.
            quantiles_of-Quotes (map f s.jobs)
              (map_full f s.jobs (omega (arith, some_jobs, v.number)))
              (omega (arith, h.few, v.number, length-map f s.jobs)) in
        let q = quotes wait_and_service in
        let w = quotes wait_of in
        record {
          final = s;
          result = v.result;
          lines = record {
            span = seconds d s.now;
            rho = v.load;
            util = utilized d cluster jobs s.sim_end_time;
            backfilled = s.backfilled;
            turnaround = record { quantiles = some (in_seconds d q.ranks); censored = 0 };
            queue_wait = record { quantiles = some (in_seconds d w.ranks); censored = 0 };
          };
          printed =
              rw
                (
                  v.offered, v.utilization, v.turnarounds, v.none_skipped, q.result, v.waits,
                  v.no_wait_skipped, w.result, ◌>>=◌,
                )
                refl;
          span = ap (seconds d) (sym v.at_end);
          util = refl;
          ranks = q.ranks;
          turnaround = refl;
          turnaround_right = (q.p50_right, q.p95_right, q.p99_right);
          wait_ranks = w.ranks;
          queue_wait = refl;
          queue_wait_right = (w.p50_right, w.p95_right, w.p99_right);
        }
