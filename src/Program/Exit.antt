-- ===== src/Program/Exit.antt =====
-- What `main` of src/main.cpp comes to.
use Prim.Native.String.{String}
use atlas_simulator.Prelude.{
  ℕ, ◌<◌, ◌≡◌, refl, ap, sym, subst, ◌∙◌, ◌⊎◌, inl, inr, true, false, Bool-cases, List, [], Option,
  some, Bool, arith, length, get_elem?, ◌>>=◌, if◌then◌else◌, add64,
}
use atlas_simulator.Doubles.{Doubles, Engine}
use atlas_simulator.Model.Types.{Job, done}
use atlas_simulator.Model.Cluster.{make_cluster}
use atlas_simulator.Model.Workload.{default_resources, WorkloadGenerator}
use atlas_simulator.Sched.Factory.{make_scheduler, make_queue_policy}
use atlas_simulator.Metrics.Percentiles.{NthElement}
use atlas_simulator.Engine.Simulator.{Simulator, make_simulator}
use atlas_simulator.Engine.Simulator.Boards.{spec_of}
use atlas_simulator.Engine.Simulator.Complete.{length-map, run-Completes}
use atlas_simulator.Io.Options.{
  Options, Status, ParsedArgs, FromChars, parse_args, run as run_it, help_requested, error,
}
use atlas_simulator.Io.Options.Accepted.{IsAccepted, Decided, parse_args-Decided}
use atlas_simulator.Io.Compare.{Comparison, compare_schedulers}
use atlas_simulator.Io.Summary.{Report, report_comparison}
use atlas_simulator.Io.Summary.Rows.{Reports as Reports_of, report_comparison-Reports}
use atlas_simulator.Io.Report.{RunReport, report}
use atlas_simulator.Io.Report.Lines.{Reports, run-Reports}
use atlas_simulator.Program.{
  Opens, Finish, told, compared, simulated as simulated_to, open_trace, simulate, main,
}
use atlas_simulator.Program.Simulate.{
  CanSimulate, CanReport, workload, workload_lem, simulated, measured, made-IsReady,
}
use atlas_simulator.Program.Table.{Fills, compare_schedulers-Fills}

Status-cases : (s : Status) → (s ≡ run_it) ⊎ ((s ≡ help_requested) ⊎ (s ≡ error))
Status-cases run_it = inl refl
Status-cases help_requested = inr (inl refl)
Status-cases error = inr (inr refl)

-- Every job that a run was given is done, and none waits.
pub record IsFinished (count : ℕ) (s : Simulator) : Type 0 where
  pub number : length s.jobs ≡ count
  pub none_waiting : s.pending ≡ []
  pub all_done : (id : ℕ) (j : Job) → get_elem? s.jobs id ≡ some j → j.state ≡ done

-- The choice that `main` makes between a table and a run.
abbrev finish :
    {W : Type 0}
    → Status
    → Bool
    → Option (Comparison W)
    → (Comparison W → Option (Report W))
    → Option Simulator
    → (Simulator → Option (RunReport W))
    → Option (Finish W)
finish status compare table lines_of sim lines_for = elim status [
  | help_requested ↦ some (told 0)
  | error ↦ some (told 2)
  | run_it ↦
      if compare
      then (do t ← table; lines ← lines_of t; some (compared 0 t lines))
      else (do s ← sim; lines ← lines_for s; some (simulated_to 0 s lines))
]

module _ {W : Type 0} (status : Status) (compare : Bool) (table : Option (Comparison W))
    (lines_of : Comparison W → Option (Report W)) (sim : Option Simulator)
    (lines_for : Simulator → Option (RunReport W)) where
  finish-compared :
      (t : Comparison W) (lines : Report W)
      → status ≡ run_it
      → compare ≡ true
      → table ≡ some t
      → lines_of t ≡ some lines
      → finish status compare table lines_of sim lines_for ≡ some (compared 0 t lines)
  finish-compared t lines e c r l = rw (e, c) (rw (r, ◌>>=◌) (rw (l, ◌>>=◌) refl))

  finish-simulated :
      (s : Simulator) (lines : RunReport W)
      → status ≡ run_it
      → compare ≡ false
      → sim ≡ some s
      → lines_for s ≡ some lines
      → finish status compare table lines_of sim lines_for ≡ some (simulated_to 0 s lines)
  finish-simulated s lines e c r l = rw (e, c) (rw (r, ◌>>=◌) (rw (l, ◌>>=◌) refl))

module _ {W E : Type 0} (d : Doubles W) (g : Engine E) (nth : NthElement) (opens : Opens)
    (real : W → String) where
  -- The run that the options ask for, and its lines.
  pub record Shows (opt : Options W) : Type 0 where
    pub jobs : List Job
    pub generator : WorkloadGenerator W E
    pub drawn : workload d g opt opt.seed ≡ some (jobs, generator)
    pub reports :
        Reports d nth
          (make_cluster opt.nodes default_resources)
          jobs
          (simulate d g nth opens real opt)
    pub finished : IsFinished opt.jobs reports.final

  -- The sweep that the options ask for, and its table.
  pub record Tabulates (opt : Options W) : Type 0 where
    pub fills : Fills d g nth opt opt.seeds (compare_schedulers d g nth opt opt.seeds)
    pub lines : Reports_of fills.table (report_comparison d fills.table)

  -- The ways in which the program ends.
  pub data Exits (p : ParsedArgs W) (r : Option (Finish W)) : Type 0 where
    shows_usage : p.status ≡ help_requested → r ≡ some (told 0) → Exits p r
    rejects : p.status ≡ error → r ≡ some (told 2) → Exits p r
    simulates :
        IsAccepted d p.options
        → p.options.compare ≡ false
        → (v : Shows p.options) → r ≡ some (simulated_to 0 v.reports.final v.reports.lines)
        → Exits p r
    sweeps :
        IsAccepted d p.options
        → p.options.compare ≡ true
        → (v : Tabulates p.options) → r ≡ some (compared 0 v.fills.table v.lines.report)
        → Exits p r

  abbrev value : ParsedArgs W → Option (Finish W)
  value p =
      finish p.status p.options.compare (compare_schedulers d g nth p.options p.options.seeds)
        (report_comparison d) (simulate d g nth opens real p.options) (report d nth)

  value-compared :
      (p : ParsedArgs W) (v : Tabulates p.options)
      → p.status ≡ run_it
      → p.options.compare ≡ true
      → value p ≡ some (compared 0 v.fills.table v.lines.report)
  value-compared p v e c =
      finish-compared p.status p.options.compare
        (compare_schedulers d g nth p.options p.options.seeds) (report_comparison d)
        (simulate d g nth opens real p.options) (report d nth) v.fills.table v.lines.report e c
        v.fills.result v.lines.result

  value-simulated :
      (p : ParsedArgs W) (v : Shows p.options)
      → p.status ≡ run_it
      → p.options.compare ≡ false
      → value p ≡ some (simulated_to 0 v.reports.final v.reports.lines)
  value-simulated p v e c =
      finish-simulated p.status p.options.compare
        (compare_schedulers d g nth p.options p.options.seeds) (report_comparison d)
        (simulate d g nth opens real p.options) (report d nth) v.reports.final v.reports.lines e c
        v.reports.result v.reports.printed

  value-usage : (p : ParsedArgs W) → p.status ≡ help_requested → value p ≡ some (told 0)
  value-usage p h = rw h refl

  value-error : (p : ParsedArgs W) → p.status ≡ error → value p ≡ some (told 2)
  value-error p h = rw h refl

  simulate-Shows :
      (opt : Options W) (bound : ℕ)
      → CanSimulate d g opt bound
      → CanReport d g opt opt.seed
      → Shows opt
  unfolding simulate make_simulator
  simulate-Shows opt bound c can =
      let trace = some (open_trace opens real opt) in
      let scheduler = make_scheduler opt.scheduler in
      let policy = make_queue_policy opt.queue in
      let cluster = make_cluster opt.nodes default_resources in
      let v =
        simulated d g opt bound opt.seed scheduler c
          (λ s e. made-IsReady opt.scheduler s opt.nodes e) in
      let jobs = v.generated.jobs in
      let (last, measurable) = measured d g opt bound opt.seed scheduler c can v in
      let reports : Reports d nth cluster jobs (simulate d g nth opens real opt) =
        rw (v.starts, ◌>>=◌)
          (rw (v.generated.result, ◌>>=◌)
            (run-Reports d nth cluster jobs trace scheduler policy v.runs last measurable)) in
      let done_all = run-Completes cluster jobs trace scheduler policy v.runs v.each in
      let there : simulate d g nth opens real opt ≡ some done_all.final =
        rw (v.starts, ◌>>=◌) (rw (v.generated.result, ◌>>=◌) done_all.result) in
      let same : done_all.final ≡ reports.final = cc (there, reports.result) in
      let number : length done_all.final.jobs ≡ length jobs =
        sym (length-map spec_of done_all.final.jobs)
        ∙ (ap length done_all.specs ∙ length-map spec_of jobs) in
      record {
        jobs = jobs;
        generator = v.generated.generator;
        drawn = workload_lem d g opt bound opt.seed scheduler v;
        reports = reports;
        finished = subst (IsFinished opt.jobs) same (record {
          number = number ∙ v.generated.number;
          none_waiting = done_all.none_waiting;
          all_done = done_all.all_done;
        });
      }

  tabulates :
      (opt : Options W) (bound : ℕ)
      → CanSimulate d g opt bound
      → ((k : ℕ) → k < opt.seeds → CanReport d g opt (add64 opt.seed k))
      → Tabulates opt
  tabulates opt bound c can =
      let v = compare_schedulers-Fills d g nth opt bound opt.seeds c can in
      record {
        fills = v;
        lines =
            report_comparison-Reports d v.table v.cells (omega (arith, v.height))
              (omega (arith, v.seeds, c.accepted.some_seeds))
              (omega (arith, v.seeds, c.in_range.seeds)) (rw (v.height, v.seeds) v.is_table)
              (ap length v.labels ∙ sym v.height);
      }

  -- For any arguments: when the parser wants the usage shown, `main` returns 0, and when it rejects
  -- them, 2. Otherwise the options are acceptable. Let doubles round as IEEE 754 says, no double that
  -- is drawn exceed the bound, the estimates fit in 63 bits, the clock have room for all jobs, the cores of the cluster fit in 32 bits, and the jobs that are drawn from each
  -- seed in use have some service time, with room in 64 bits for the cluster's memory times the
  -- time by which they must be done. Then options for one run lead to a run of the drawn jobs
  -- that leaves every job done and none waiting, to the lines of its report, and 0. Options for a
  -- sweep lead to the table of all runs, to the lines of its report, and 0. No assertion fails.
  pub main-Exits :
      (from : FromChars W) (args : List String) (bound : ℕ)
      → ((parse_args d from args).status ≡ run_it
          → (parse_args d from args).options.compare ≡ false
          → CanSimulate d g (parse_args d from args).options bound
            × CanReport d g (parse_args d from args).options (parse_args d from args).options.seed)
      → ((parse_args d from args).status ≡ run_it
          → (parse_args d from args).options.compare ≡ true
          → CanSimulate d g (parse_args d from args).options bound
            × ((k : ℕ)
                → k < (parse_args d from args).options.seeds
                → CanReport d g
                    (parse_args d from args).options
                    (add64 (parse_args d from args).options.seed k)))
      → Exits (parse_args d from args) (main d g nth opens real from args)
  unfolding main
  main-Exits from args bound can runs =
      exits (parse_args d from args) can runs (parse_args-Decided d from args)
    where
      exits :
          (p : ParsedArgs W)
          → (p.status ≡ run_it
              → p.options.compare ≡ false
              → CanSimulate d g p.options bound × CanReport d g p.options p.options.seed)
          → (p.status ≡ run_it
              → p.options.compare ≡ true
              → CanSimulate d g p.options bound
                × ((k : ℕ)
                    → k < p.options.seeds
                    → CanReport d g p.options (add64 p.options.seed k)))
          → Decided d p
          → Exits p (value p)
      exits p can runs (inl (e, a)) = elim (Bool-cases p.options.compare) [
        | inl c ↦
            let (fit, each) = runs e c in
            let v = tabulates p.options bound fit each in sweeps a c v (value-compared p v e c)
        | inr c ↦
            let (fit, measurable) = can e c in
            let v = simulate-Shows p.options bound fit measurable in
            simulates a c v (value-simulated p v e c)
      ]
      exits p can runs (inr (stopped, e)) = elim (Status-cases p.status) [
        | inl h ↦ absurd (stopped h)
        | inr (inl h) ↦ shows_usage h (value-usage p h)
        | inr (inr h) ↦ rejects h (value-error p h)
      ]
