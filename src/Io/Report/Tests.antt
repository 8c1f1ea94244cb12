-- ===== src/Io/Report/Tests.antt =====
-- What is printed of a run of four jobs, with whole numbers for doubles.
use atlas_simulator.Prelude.{some, none}
use atlas_simulator.Doubles.{whole}
use atlas_simulator.Metrics.Percentiles.Sorting.{sorting}
use atlas_simulator.Sched.Queue.{backfill}
use atlas_simulator.Io.Report.Lines.{Reports, run-Reports}
use atlas_simulator.Engine.Simulator.{make_simulator, run}
use atlas_simulator.Engine.Simulator.Tests.{
  two_nodes, four_jobs, cyclic, small-CanRun, small-CanMeasure,
}

run-Reports_example :
    Reports whole sorting two_nodes four_jobs
      (run (make_simulator two_nodes four_jobs none cyclic (some backfill)))
run-Reports_example =
    run-Reports whole sorting two_nodes four_jobs none cyclic (some backfill) small-CanRun 7
      small-CanMeasure
