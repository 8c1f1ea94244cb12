-- ===== src/Io/Options.antt =====
-- src/atlas/io/options.hpp and options.cpp. Usage and messages on stderr are left out. A text that
-- may be a null pointer is an Option.
pub mod Accepted
pub mod Words
pub mod Stops
pub mod Strokes
mod Tests
use Prim.Native.String.{String, len}
use text.Mathlib.Text.{◌==◌ as ◌same◌}
use mathlib.Core.Option
use atlas_simulator.Prelude.{
  ℕ, ◌*◌, ◌≡◌, Bool, true, false, not, ◌&&◌, ◌||◌, List, [], ◌∷◌, Option, none, some, ◌==◌,
  if◌then◌else◌,
}
use atlas_simulator.Doubles.{Doubles}
use atlas_simulator.Sched.Place.{Scheduler}
use atlas_simulator.Sched.Queue.{QueuePolicy}
use atlas_simulator.Sched.Factory.{make_scheduler, make_queue_policy}

pub record Options (W : Type 0) : Type 0 where
  pub seed : ℕ
  pub nodes : ℕ
  pub jobs : ℕ
  pub arrival_rate : W
  pub trace_path : Option String
  pub scheduler : String
  pub queue : String
  pub estimate_padding : W
  pub compare : Bool
  pub seeds : ℕ

pub data Status : Type 0 where
  run help_requested error : Status

pub record ParsedArgs (W : Type 0) : Type 0 where
  pub status : Status
  pub options : Options W

-- std::from_chars for the three types of values: the value read and the count of characters that
-- it was read from, or nothing.
pub record FromChars (W : Type 0) : Type 0 where
  pub u64 : String → Option (ℕ × ℕ)
  pub u32 : String → Option (ℕ × ℕ)
  pub real : String → Option (W × ℕ)

unfoldable pub parse_value : {T : Type 0} → (String → Option (T × ℕ)) → String → Option T
parse_value from_chars text = elim (from_chars text) [
  | none ↦ none
  | some (v, read) ↦ if read == len text then some v else none
]

-- `text != nullptr`
abbrev pub is_set : Option String → Bool
is_set none = false
is_set (some path) = true

-- What the loop over the arguments comes to: options, or an early return.
pub data Loop (W : Type 0) : Type 0 where
  finished : Options W → Loop W
  stopped : Status → Loop W

abbrev pub is_help : String → Bool
is_help flag = (flag same "--help") || (flag same "-h")

abbrev pub is_compare : String → Bool
is_compare flag = flag same "--compare"

module _ {W : Type 0} (from : FromChars W) where
  -- The chain of comparisons for a flag with a value.
  unfoldable pub set_option : String → String → Options W → Option (Options W)
  set_option flag value o =
      if flag same "--seed"
      then Option.map (λ v. record o { seed = v }) (parse_value from.u64 value)
      else if flag same "--nodes"
      then Option.map (λ v. record o { nodes = v }) (parse_value from.u32 value)
      else if flag same "--jobs"
      then Option.map (λ v. record o { jobs = v }) (parse_value from.u32 value)
      else if flag same "--rate"
      then Option.map (λ v. record o { arrival_rate = v }) (parse_value from.real value)
      else if flag same "--scheduler"
      then some (record o { scheduler = value })
      else if flag same "--queue"
      then some (record o { queue = value })
      else if flag same "--padding"
      then Option.map (λ v. record o { estimate_padding = v }) (parse_value from.real value)
      else if flag same "--seeds"
      then Option.map (λ v. record o { seeds = v }) (parse_value from.u32 value)
      else if flag same "--trace"
      then some (record o { trace_path = some value })
      else none

  pub parse_loop : Options W → List String → Loop W
  parse_loop o [] = finished o
  parse_loop o (flag ∷ []) =
      if is_help flag
      then stopped help_requested
      else if is_compare flag
      then finished (record o { compare = true })
      else stopped error
  parse_loop o (flag ∷ value ∷ rest) =
      let next = parse_loop (record o { compare = true }) (value ∷ rest) in
      let set : Loop W = elim (set_option flag value o) [
        | none ↦ stopped error
        | some o' ↦ parse_loop o' rest
      ] in
      if is_help flag then stopped help_requested else if is_compare flag then next else set

module _ {W : Type 0} (d : Doubles W) where
  -- The literal 0.025 is the double next to 1 / 40.
  abbrev pub default_options : Options W
  default_options = record {
    seed = 7;
    nodes = 8;
    jobs = 2000;
    arrival_rate = d.div (d.of_nat 1) (d.of_nat 40);
    trace_path = none;
    scheduler = "first_fit";
    queue = "fifo";
    estimate_padding = d.of_nat 2;
    compare = false;
    seeds = 30;
  }

  -- The checks behind the loop, in order; true where no problem was found.
  unfoldable pub has_no_problem : Options W → Bool
  has_no_problem o =
      if o.nodes == 0
      then false
      else if o.jobs == 0
      then false
      else if not (d.lt (d.of_nat 0) o.arrival_rate)
      then false
      else if not (d.le (d.of_nat 0) o.estimate_padding)
      then false
      else if o.seeds == 0
      then false
      else not (o.compare && is_set o.trace_path)

  abbrev pub reject : Status → ParsedArgs W
  reject status = record { status = status; options = default_options }

  unfoldable pub check_options : Options W → ParsedArgs W
  unfolding has_no_problem
  check_options o = elim (make_scheduler o.scheduler) [
    | none ↦ reject error
    | some s ↦ elim (make_queue_policy o.queue) [
      | none ↦ reject error
      | some p ↦ if has_no_problem o then record { status = run; options = o } else reject error
    ]
  ]

module _ {W : Type 0} (d : Doubles W) (from : FromChars W) where
  -- `argv` from its second entry on.
  unfoldable pub parse_args : List String → ParsedArgs W
  unfolding parse_loop set_option check_options
  parse_args args = elim (parse_loop from (default_options d) args) [
    | stopped status ↦ reject d status
    | finished o ↦ check_options d o
  ]
