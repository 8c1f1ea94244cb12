-- ===== src/Io/Options/Accepted.antt =====
-- Which options src/atlas/io/options.cpp lets through.
use Prim.Native.String.{String}
use atlas_simulator.Prelude.{
  ◌<◌, ◌≡◌, refl, ◌≢◌, ◌⊎◌, inl, inr, Bool, true, false, ◌&&◌, List, [], ◌∷◌, Option, none, some,
  arith, Option-cases, Bool-cases, if◌then◌else◌,
}
use atlas_simulator.Doubles.{Doubles}
use atlas_simulator.Sched.Place.{Scheduler}
use atlas_simulator.Sched.Queue.{QueuePolicy}
use atlas_simulator.Sched.Factory.{make_scheduler, make_queue_policy}
use atlas_simulator.Io.Options.{
  Options, ParsedArgs, FromChars, Loop, finished, stopped, run, help_requested, error, is_set,
  is_help, is_compare, parse_loop, set_option, has_no_problem, check_options, parse_args,
  default_options, reject,
}

-- An early return is no order to run.
abbrev Stops : {W : Type 0} → Loop W → Type 0
Stops (finished o) = Unit
Stops (stopped status) = status ≢ run

not_help : help_requested ≢ run
not_help e = cc

not_error : error ≢ run
not_error e = cc

stops :
    {W : Type 0} (from : FromChars W) (o : Options W) (args : List String)
    → Stops (parse_loop from o args)
unfolding parse_loop
stops from o [] = tt
stops from o (flag ∷ []) = elim (Bool-cases (is_help flag)) [
  | inl h ↦ rw h not_help
  | inr h ↦ elim (Bool-cases (is_compare flag)) [
    | inl c ↦ rw (h, c) tt
    | inr c ↦ rw (h, c) not_error
  ]
]
stops from o (flag ∷ value ∷ rest) =
    let next = stops from (record o { compare = true }) (value ∷ rest) in
    let go : (r : Option (Options _))
        → ((o' : Options _) → Stops (parse_loop from o' rest))
        → Stops (elim r [ none ↦ stopped error | some o' ↦ parse_loop from o' rest ]) =
      λ r ih.
        elim r
          as (λ r. Stops (elim r [ none ↦ stopped error | some o' ↦ parse_loop from o' rest ])) [
            | none ↦ not_error
            | some o' ↦ ih o'
          ] in
    elim (Bool-cases (is_help flag)) [
      | inl h ↦ rw h not_help
      | inr h ↦ elim (Bool-cases (is_compare flag)) [
        | inl c ↦ rw (h, c) next
        | inr c ↦ rw (h, c) (go (set_option from flag value o) (λ o'. stops from o' rest))
      ]
    ]

module _ {W : Type 0} (d : Doubles W) where
  -- The names are known, the numbers positive, and a sweep has no trace.
  pub record IsAccepted (o : Options W) : Type 0 where
    pub scheduler : Scheduler
    pub scheduler_known : make_scheduler o.scheduler ≡ some scheduler
    pub policy : QueuePolicy
    pub policy_known : make_queue_policy o.queue ≡ some policy
    pub some_nodes : 0 < o.nodes
    pub some_jobs : 0 < o.jobs
    pub rate_pos : d.lt (d.of_nat 0) o.arrival_rate ≡ true
    pub padding_pos : d.le (d.of_nat 0) o.estimate_padding ≡ true
    pub some_seeds : 0 < o.seeds
    pub no_trace : o.compare ≡ true → o.trace_path ≡ none

  no_path :
      (compare : Bool) (path : Option String)
      → (compare && is_set path) ≡ false
      → compare ≡ true
      → path ≡ none
  no_path true none h e = refl
  no_path true (some p) h e = cc
  no_path false path h e = cc

  path_free :
      (compare : Bool) (path : Option String)
      → (compare ≡ true → path ≡ none)
      → (compare && is_set path) ≡ false
  path_free true path h = rw (h refl) refl
  path_free false path h = refl

  problem_free :
      (o : Options W)
      → has_no_problem d o ≡ true
      → (0 < o.nodes)
        × (0 < o.jobs)
        × (d.lt (d.of_nat 0) o.arrival_rate ≡ true)
        × (d.le (d.of_nat 0) o.estimate_padding ≡ true)
        × (0 < o.seeds)
        × ((o.compare && is_set o.trace_path) ≡ false)
  unfolding has_no_problem
  problem_free o h = ground arith

  free_of_problems :
      (o : Options W)
      → 0 < o.nodes
      → 0 < o.jobs
      → d.lt (d.of_nat 0) o.arrival_rate ≡ true
      → d.le (d.of_nat 0) o.estimate_padding ≡ true
      → 0 < o.seeds
      → (o.compare && is_set o.trace_path) ≡ false
      → has_no_problem d o ≡ true
  unfolding has_no_problem
  free_of_problems o n j r p s t = ground arith

  -- The options are acceptable and handed on, or they are not and are rejected.
  abbrev pub Checked : Options W → ParsedArgs W → Type 0
  Checked o r =
      (IsAccepted o × (r ≡ record { status = run; options = o }))
      ⊎ ((IsAccepted o → ⊥) × (r ≡ reject d error))

  check_named :
      (o : Options W) (s : Scheduler) (p : QueuePolicy)
      → make_scheduler o.scheduler ≡ some s
      → make_queue_policy o.queue ≡ some p
      → Checked o
          (if has_no_problem d o then record { status = run; options = o } else reject d error)
  check_named o s p es ep = elim (Bool-cases (has_no_problem d o)) [
    | inl good ↦
        let (n, j, r, pad, sd, t) = problem_free o good in
        inl (
          record {
            scheduler = s;
            scheduler_known = es;
            policy = p;
            policy_known = ep;
            some_nodes = n;
            some_jobs = j;
            rate_pos = r;
            padding_pos = pad;
            some_seeds = sd;
            no_trace = no_path o.compare o.trace_path t;
          },
          rw good refl,
        )
    | inr bad ↦ inr (
      (λ a. cc (
        bad,
        free_of_problems o a.some_nodes a.some_jobs a.rate_pos a.padding_pos a.some_seeds
            (path_free o.compare o.trace_path a.no_trace),
      )),
      rw bad refl,
    )
  ]

  pub check_options-Checked : (o : Options W) → Checked o (check_options d o)
  unfolding check_options
  check_options-Checked o = elim (Option-cases (make_scheduler o.scheduler)) [
    | inl e ↦ inr ((λ a. cc (e, a.scheduler_known)), rw (e, check_options) refl)
    | inr (s, e) ↦ elim (Option-cases (make_queue_policy o.queue)) [
      | inl e' ↦ inr ((λ a. cc (e', a.policy_known)), rw (e, e', check_options) refl)
      | inr (p, e') ↦ rw (e, e', check_options) (check_named o s p e e')
    ]
  ]

  -- What any command line comes to: options to run with that are acceptable, or an early return
  -- with the default options.
  abbrev pub Decided : ParsedArgs W → Type 0
  Decided r =
      ((r.status ≡ run) × IsAccepted r.options)
      ⊎ ((r.status ≢ run) × (r.options ≡ default_options d))

  -- Whatever the arguments are, `parse_args` comes to options to run with, and then their names are
  -- known, the counts, the rate and the seeds are positive, the padding is not negative, and a
  -- sweep has no trace; or it says otherwise and hands on the default options.
  pub parse_args-Decided :
      (from : FromChars W) (args : List String) → Decided (parse_args d from args)
  unfolding parse_args
  parse_args-Decided from args =
      decide (parse_loop from (default_options d) args) (stops from (default_options d) args)
    where
      decide :
          (l : Loop W)
          → Stops l
          → Decided (elim l [ stopped status ↦ reject d status | finished o ↦ check_options d o ])
      decide (finished o) h = elim (check_options-Checked o) [
        | inl (good, e) ↦ rw e (inl (refl, good))
        | inr (bad, e) ↦ rw e (inr ((λ e. cc), refl))
      ]
      decide (stopped status) h = inr (h, refl)
