-- ===== src/Program.antt =====
-- src/main.cpp, and the constructor of TraceWriter in src/atlas/io/trace.cpp. The two reports come
-- back as what they print.
pub mod Simulate
pub mod Sweep
pub mod Table
pub mod Exit
mod Tests
use Prim.Native.String.{String}
use atlas_simulator.Prelude.{ℕ, List, [], ◌∷◌, Option, none, some, Bool, if◌then◌else◌, ◌>>=◌}
use atlas_simulator.Doubles.{Doubles, Engine}
use atlas_simulator.Model.Cluster.{make_cluster}
use atlas_simulator.Model.Workload.{default_resources, make_generator, generate}
use atlas_simulator.Sched.Factory.{make_scheduler, make_queue_policy}
use atlas_simulator.Metrics.Percentiles.{NthElement}
use atlas_simulator.Engine.Simulator.{Simulator, make_simulator, run}
use atlas_simulator.Io.Trace.{TraceWriter, header_line, write_line}
use atlas_simulator.Io.Options.{
  Options, Status, run as run_it, help_requested, error, FromChars, parse_args,
}
use atlas_simulator.Io.Compare.{Comparison, compare_schedulers}
use atlas_simulator.Io.Summary.{Report, report_comparison}
use atlas_simulator.Io.Report.{RunReport, report}

-- std::fopen for writing: whether it opens a file at the path.
abbrev pub Opens : Type 0
Opens = String → Bool

-- What std::format makes of a double is `real`.
unfoldable pub open_trace : {W : Type 0} → Opens → (W → String) → Options W → TraceWriter
unfolding write_line
open_trace opens real opt = elim opt.trace_path [
  | none ↦ record { out = none }
  | some path ↦
      if opens path
      then write_line (record { out = some [] })
          (header_line opt.seed opt.nodes opt.jobs (real opt.arrival_rate) opt.scheduler opt.queue
            (real opt.estimate_padding))
      else record { out = none }
]

-- What a call of the program has done when it returns: the exit status alone, a sweep and its
-- table, or a run and its lines.
pub data Finish (W : Type 0) : Type 0 where
  told : (code : ℕ) → Finish W
  compared : (code : ℕ) → Comparison W → Report W → Finish W
  simulated : (code : ℕ) → Simulator → RunReport W → Finish W

module _ {W E : Type 0} (d : Doubles W) (g : Engine E) (nth : NthElement) (opens : Opens)
    (real : W → String) where
  -- The one run of `main`.
  unfoldable pub simulate : Options W → Option Simulator
  simulate opt = do
    gen ← make_generator d g opt.seed opt.arrival_rate opt.estimate_padding
    (jobs, gen') ← generate d g gen opt.jobs
    run (
        make_simulator (make_cluster opt.nodes default_resources) jobs
          (some (open_trace opens real opt)) (make_scheduler opt.scheduler)
          (make_queue_policy opt.queue))

  unfoldable pub main : FromChars W → List String → Option (Finish W)
  unfolding simulate
  main from args =
      let parsed = parse_args d from args in
      elim parsed.status [
        | help_requested ↦ some (told 0)
        | error ↦ some (told 2)
        | run_it ↦
            if parsed.options.compare
            then (do
              table ← compare_schedulers d g nth parsed.options parsed.options.seeds
              lines ← report_comparison d table
              some (compared 0 table lines))
            else (do
              sim ← simulate parsed.options
              lines ← report d nth sim
              some (simulated 0 sim lines))
      ]
