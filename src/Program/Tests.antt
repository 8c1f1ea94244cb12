-- ===== src/Program/Tests.antt =====
-- A whole call of the program of src/main.cpp, with numbers written as strokes.
use Prim.Native.String.{String}
use atlas_simulator.Prelude.{
  ℕ, zero, suc, ◌<◌, ◌≡◌, refl, ap, sym, subst, arith, true, false, List, [], Option, some, none,
  add64,
}
use atlas_simulator.Doubles.{whole, whole-IsRounded, counter}
use atlas_simulator.Model.Types.{Job}
use atlas_simulator.Model.Random.{next_below, next_exponential, next_interarrival, next_uniform}
use atlas_simulator.Model.Workload.{WorkloadGenerator, make_generator, generate}
use atlas_simulator.Model.Workload.Steady.{one_a_second}
use atlas_simulator.Sched.Place.{least_loaded}
use atlas_simulator.Sched.Queue.{backfill}
use atlas_simulator.Sched.Factory.{make_scheduler, make_queue_policy}
use atlas_simulator.Metrics.Percentiles.Sorting.{sorting}
use atlas_simulator.Engine.Simulator.Drawn.{IsMeasurable}
use atlas_simulator.Io.Options.{Options, ParsedArgs, parse_args, run}
use atlas_simulator.Io.Options.Accepted.{IsAccepted}
use atlas_simulator.Io.Options.Words.{IsInRange, args_of, parse_args-args_of}
use atlas_simulator.Io.Options.Strokes.{from, to}
use atlas_simulator.Io.Compare.{run_config, compare_schedulers}
use atlas_simulator.Program.{Opens, main}
use atlas_simulator.Program.Simulate.{CanSimulate, CanReport, workload}
use atlas_simulator.Program.Sweep.{RunsOn, run_config-RunsOn}
use atlas_simulator.Program.Table.{Fills, compare_schedulers-Fills}
use atlas_simulator.Program.Exit.{Exits, main-Exits}

abbrev single : Options ℕ
single = record {
  seed = 3;
  nodes = 2;
  jobs = 5;
  arrival_rate = 1;
  trace_path = some "out.jsonl";
  scheduler = "least_loaded";
  queue = "backfill";
  estimate_padding = 2;
  compare = false;
  seeds = 4;
}

single-IsInRange : IsInRange single
single-IsInRange = record {
  seed = omega arith;
  nodes = omega arith;
  jobs = omega arith;
  seeds = omega arith;
}

single-IsAccepted : IsAccepted whole single
unfolding make_scheduler make_queue_policy
single-IsAccepted = record {
  scheduler = least_loaded;
  scheduler_known = refl;
  policy = backfill;
  policy_known = refl;
  some_nodes = omega arith;
  some_jobs = omega arith;
  rate_pos = refl;
  padding_pos = refl;
  some_seeds = omega arith;
  no_trace = λ e. cc;
}

single-CanSimulate : CanSimulate whole counter single 600000000
single-CanSimulate = record {
  rounded = whole-IsRounded;
  accepted = single-IsAccepted;
  in_range = single-IsInRange;
  rate = one_a_second;
  small = omega arith;
  most = 2;
  padding_most = refl;
  most_small = omega arith;
  estimates_fit = omega arith;
  room = omega arith;
}

-- The jobs that are drawn from seed 3.
drawn_jobs :
    (js : List Job) (gen : WorkloadGenerator ℕ ℕ)
    → workload whole counter single 3 ≡ some (js, gen)
    → IsMeasurable 2 js
unfolding make_generator generate next_below next_exponential next_interarrival next_uniform add64
drawn_jobs js gen e =
    subst (IsMeasurable 2)
      (ap (λ (r : Option (List Job × WorkloadGenerator ℕ ℕ)). elim r [ none ↦ [] | some p ↦ p.0 ])
        e)
      (record {
        last = 5000000;
        submitted = (omega arith, (omega arith, (omega arith, (omega arith, (omega arith, tt)))));
        some_work = omega arith;
        span = omega arith;
      })

single-CanReport : CanReport whole counter single 3
single-CanReport = record { few_nodes = omega arith; measurable = drawn_jobs }

abbrev words : List String
words = args_of from to single

read : parse_args whole from words ≡ record { status = run; options = single }
read = parse_args-args_of from to whole single single-IsInRange single-IsAccepted

abbrev always : Opens
always path = true

not_compare : (parse_args whole from words).options.compare ≡ false
not_compare = ap (λ (p : ParsedArgs ℕ). p.options.compare) read

main-Exits_example :
    Exits whole counter sorting always to.real
      (parse_args whole from words)
      (main whole counter sorting always to.real from words)
main-Exits_example =
    main-Exits whole counter sorting always to.real from words 600000000
      (λ s c.
        subst
          (λ (p : ParsedArgs ℕ).
            CanSimulate whole counter p.options 600000000
            × CanReport whole counter p.options p.options.seed)
          (sym read) (single-CanSimulate, single-CanReport))
      (λ s c. cc (c, not_compare))

sweep-CanReport : (k : ℕ) → k < 1 → CanReport whole counter single (add64 3 k)
unfolding add64
sweep-CanReport zero lt = single-CanReport
sweep-CanReport (suc k) lt = absurd (omega arith)

run_config-RunsOn_example :
    RunsOn whole counter sorting single 3 6 (run_config whole counter sorting single 3 6)
run_config-RunsOn_example =
    run_config-RunsOn whole counter sorting single 600000000 3 6 single-CanSimulate single-CanReport
      (omega arith)

compare_schedulers-Fills_example :
    Fills whole counter sorting single 1 (compare_schedulers whole counter sorting single 1)
compare_schedulers-Fills_example =
    compare_schedulers-Fills whole counter sorting single 600000000 1 single-CanSimulate
      sweep-CanReport
