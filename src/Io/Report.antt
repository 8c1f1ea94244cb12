-- ===== src/Io/Report.antt =====
-- The numbers that src/atlas/io/report.cpp prints of a finished run.
pub mod Lines
mod Tests
use atlas_simulator.Prelude.{ℕ, List, [], ◌∷◌, Option, none, some, ◌>>=◌}
use atlas_simulator.Doubles.{Doubles}
use atlas_simulator.Metrics.Samples.{TimeSample, turnaround_times, queue_wait_times}
use atlas_simulator.Metrics.Percentiles.{NthElement, percentiles}
use atlas_simulator.Metrics.Load.{LoadFactor, offered_load}
use atlas_simulator.Engine.Simulator.{Simulator}
use atlas_simulator.Engine.Simulator.Mean.{mean_utilization}
use atlas_simulator.Io.Summary.{seconds}

pub record Quantiles (W : Type 0) : Type 0 where
  pub p50 : W
  pub p95 : W
  pub p99 : W

-- One line of report_sample. A sample with no times has no quantiles.
pub record SampleLine (W : Type 0) : Type 0 where
  pub quantiles : Option (Quantiles W)
  pub censored : ℕ

-- The lines below the echo of the options.
pub record RunReport (W : Type 0) : Type 0 where
  pub span : W
  pub rho : LoadFactor W
  pub util : LoadFactor W
  pub backfilled : ℕ
  pub turnaround : SampleLine W
  pub queue_wait : SampleLine W

module _ {W : Type 0} (d : Doubles W) (nth : NthElement) where
  pub quantiles_of : List ℕ → Option (Option (Quantiles W))
  quantiles_of [] = some none
  quantiles_of (t ∷ ts) = do
    (p, reordered) ← percentiles nth (t ∷ ts)
    some (some (record { p50 = seconds d p.p50; p95 = seconds d p.p95; p99 = seconds d p.p99 }))

  unfoldable pub report_sample : TimeSample → Option (SampleLine W)
  unfolding quantiles_of
  report_sample sample = do
    quantiles ← quantiles_of sample.times
    some (record { quantiles = quantiles; censored = sample.skipped })

  unfoldable pub report : Simulator → Option (RunReport W)
  unfolding report_sample
  report sim = do
    rho ← offered_load d sim.jobs sim.cluster
    util ← mean_utilization d sim
    turnaround ← report_sample (turnaround_times sim.jobs)
    queue_wait ← report_sample (queue_wait_times sim.jobs)
    some (record {
      span = seconds d sim.now;
      rho = rho;
      util = util;
      backfilled = sim.backfilled;
      turnaround = turnaround;
      queue_wait = queue_wait;
    })
