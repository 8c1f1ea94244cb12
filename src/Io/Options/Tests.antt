-- ===== src/Io/Options/Tests.antt =====
-- Command lines for src/atlas/io/options.cpp, with numbers written as strokes.
use Prim.Native.String.{String}
use text.Mathlib.Text.{◌==◌ as ◌same◌}
use text.Mathlib.TextEquality.{eq_iff}
use atlas_simulator.Prelude.{ℕ, ◌≡◌, ◌≢◌, refl, arith, List, [], ◌∷◌, ◌++◌, none, true, false}
use atlas_simulator.Doubles.{whole}
use atlas_simulator.Sched.Place.{least_loaded}
use atlas_simulator.Sched.Queue.{backfill}
use atlas_simulator.Sched.Factory.{make_scheduler, make_queue_policy}
use atlas_simulator.Io.Options.{
  Options, parse_loop, parse_args, default_options, reject, run, error, set_option, finished,
}
use atlas_simulator.Io.Options.Accepted.{IsAccepted, Decided, parse_args-Decided}
use atlas_simulator.Io.Options.Strokes.{from, to}
use atlas_simulator.Io.Options.Words.{IsInRange, args_of, parse_args-args_of}
use atlas_simulator.Io.Options.Stops.{TakesValue, missing, parse_args-stops}

abbrev sweep : Options ℕ
sweep = record {
  seed = 3;
  nodes = 2;
  jobs = 5;
  arrival_rate = 1;
  trace_path = none;
  scheduler = "least_loaded";
  queue = "backfill";
  estimate_padding = 2;
  compare = true;
  seeds = 4;
}

sweep-IsAccepted : IsAccepted whole sweep
unfolding make_scheduler make_queue_policy
sweep-IsAccepted = record {
  scheduler = least_loaded;
  scheduler_known = refl;
  policy = backfill;
  policy_known = refl;
  some_nodes = omega arith;
  some_jobs = omega arith;
  rate_pos = refl;
  padding_pos = refl;
  some_seeds = omega arith;
  no_trace = λ e. refl;
}

sweep-IsInRange : IsInRange sweep
sweep-IsInRange = record {
  seed = omega arith;
  nodes = omega arith;
  jobs = omega arith;
  seeds = omega arith;
}

parse_args-args_of_example :
    parse_args whole from (args_of from to sweep) ≡ record { status = run; options = sweep }
parse_args-args_of_example = parse_args-args_of from to whole sweep sweep-IsInRange sweep-IsAccepted

-- `--queue fifo --seed`
abbrev queue_words : List String
queue_words = "--queue" ∷ "fifo" ∷ []

queue_words_read :
    parse_loop from (default_options whole) queue_words
    ≡ finished (record (default_options whole) { queue = "fifo" })
unfolding parse_loop set_option
queue_words_read = refl

other : (s t : String) → (s same t) ≡ false → s ≢ t
other s t h e = let yes = (eq_iff s t).1 e in cc

seed_takes : TakesValue "--seed"
seed_takes =
    (other "--seed" "--help" refl, other "--seed" "-h" refl, other "--seed" "--compare" refl)

parse_args-stops_example : parse_args whole from (queue_words ++ "--seed" ∷ []) ≡ reject whole error
parse_args-stops_example =
    parse_args-stops whole from (record (default_options whole) { queue = "fifo" }) queue_words
      ("--seed" ∷ []) error queue_words_read (missing "--seed" seed_takes refl refl)

parse_args-Decided_example : Decided whole (parse_args whole from queue_words)
parse_args-Decided_example = parse_args-Decided whole from queue_words
