-- ===== src/Program/Table.antt =====
-- The table of the sweep of src/atlas/io/compare.cpp, from the options that the program accepts.
use Prim.Native.String.{◌++◌ as ◌<>◌}
use atlas_simulator.Prelude.{
  ℕ, ◌<◌, ◌≡◌, ap, sym, subst, ◌∙◌, [], Option, none, some, arith, length, get_elem?, add64,
}
use atlas_simulator.Doubles.{Doubles, Engine}
use atlas_simulator.Model.Cluster.{make_cluster}
use atlas_simulator.Model.Workload.{default_resources}
use atlas_simulator.Sched.Factory.{queue_policy_names}
use atlas_simulator.Metrics.Load.{LoadFactor, offered_load}
use atlas_simulator.Metrics.Percentiles.{NthElement}
use atlas_simulator.Engine.Simulator.{Simulator, make_simulator}
use atlas_simulator.Io.Options.{Options}
use atlas_simulator.Io.Compare.{
  RunResult, Comparison, cell_at, labels_of, configs, run_config, empty_table, compare_schedulers,
}
use atlas_simulator.Io.Compare.Wins.{IsTable}
use atlas_simulator.Io.Compare.Grid.{HasRuns, compare_schedulers-IsSweep}
use atlas_simulator.Program.Simulate.{CanSimulate, CanReport}
use atlas_simulator.Program.Sweep.{RunsOn, run_config-RunsOn}

or_else {ℓ} : {A : Type ℓ} → A → Option A → A
or_else a none = a
or_else a (some b) = b

or_else_lem {ℓ} : {A : Type ℓ} (a b : A) (r : Option A) → r ≡ some b → or_else a r ≡ b
unfolding or_else
or_else_lem a b none e = cc
or_else_lem a b (some c) e = cc

module _ {W E : Type 0} (d : Doubles W) (g : Engine E) (nth : NthElement) (opt : Options W) where
  abbrev run_of : ℕ → ℕ → Option (RunResult W × Simulator)
  run_of i k = run_config d g nth opt (add64 opt.seed k) i

  abbrev nothing : LoadFactor W
  nothing = record { cores = d.of_nat 0; memory = d.of_nat 0 }

  abbrev unrun : RunResult W × Simulator
  unrun = (
    record {
      p95_turnaround = 0;
      p95_queue_wait = 0;
      utilization = nothing;
      censored = 0;
      backfilled = 0;
    },
    make_simulator (make_cluster 0 default_resources) [] none none none,
  )

  abbrev cells : ℕ → ℕ → RunResult W
  cells i k = (or_else unrun (run_of i k)).0

  abbrev sims : ℕ → ℕ → Simulator
  sims i k = (or_else unrun (run_of i k)).1

  abbrev loads : ℕ → LoadFactor W
  loads k = or_else nothing (offered_load d (sims 0 k).jobs (sims 0 k).cluster)

  -- The table of a sweep, and its runs.
  pub record Fills (seed_count : ℕ) (r : Option (Comparison W)) : Type 0 where
    pub table : Comparison W
    pub result : r ≡ some table
    pub labels : table.labels ≡ labels_of queue_policy_names
    pub base_seed : table.base_seed ≡ opt.seed
    pub seeds : table.seeds ≡ seed_count
    pub height : length table.rows ≡ configs
    pub cells : ℕ → ℕ → RunResult W
    pub is_table : IsTable table.rows configs seed_count cells
    pub filled :
        (i k : ℕ)
        → i < configs
        → k < seed_count
        → (v : RunsOn d g nth opt (add64 opt.seed k) i (run_of i k)) × (cell_at table.rows i k
            ≡ some v.cell)
          × (get_elem? table.labels i ≡ some (v.queue_name <> ("/" <> v.sched_name)))
    pub offered :
        (k : ℕ)
        → k < seed_count
        → (v : RunsOn d g nth opt (add64 opt.seed k) 0 (run_of 0 k)) × (get_elem? table.offered_rho
              k
            ≡ some v.load)

  -- A sweep over some seeds. Let doubles round as IEEE 754 says, the options be acceptable, no double
  -- that is drawn exceed the bound, the estimates fit in 63 bits, the clock have room for all
  -- jobs, the cores of the cluster fit in 32 bits, and the jobs that are drawn from
  -- each seed have some service time, with room in 64 bits for the cluster's memory times the time
  -- by which they must be done. Then `compare_schedulers` comes back with a row and a label for each
  -- pair of a queue policy and a scheduler. The cell of a row and a column is that of a run, on the
  -- base seed plus the column, by the queue policy and the scheduler that the row's label names, and
  -- the offered load of a column is that of the first row's run there.
  pub compare_schedulers-Fills :
      (bound seed_count : ℕ)
      → CanSimulate d g opt bound
      → ((k : ℕ) → k < seed_count → CanReport d g opt (add64 opt.seed k))
      → Fills seed_count (compare_schedulers d g nth opt seed_count)
  unfolding empty_table
  compare_schedulers-Fills bound seed_count c can =
      let ran : (i k : ℕ)
          → i < configs
          → k < seed_count
          → RunsOn d g nth opt (add64 opt.seed k) i (run_of i k) =
        λ i k lt lt'. run_config-RunsOn d g nth opt bound (add64 opt.seed k) i c (can k lt') lt in
      let same : (i k : ℕ) (lt : i < configs) (lt' : k < seed_count)
          → or_else unrun (run_of i k) ≡ ((ran i k lt lt').cell, (ran i k lt lt').sim) =
        λ i k lt lt'. or_else_lem unrun _ (run_of i k) (ran i k lt lt').result in
      let loaded : (k : ℕ) (lt : k < seed_count)
          → offered_load d (sims 0 k).jobs (sims 0 k).cluster
            ≡ some (ran 0 k (omega arith) lt).load =
        λ k lt.
          subst
            (λ (p : RunResult W × Simulator).
              offered_load d p.1.jobs p.1.cluster ≡ some (ran 0 k (omega arith) lt).load)
            (sym (same 0 k (omega arith) lt)) (ran 0 k (omega arith) lt).offered in
      let h : HasRuns d g nth opt seed_count cells sims loads = record {
        runs = λ i k lt lt'. (ran i k lt lt').result ∙ ap some (sym (same i k lt lt'));
        offers = λ k lt. loaded k lt ∙ ap some (sym (or_else_lem nothing _ _ (loaded k lt)));
      } in
      let s = compare_schedulers-IsSweep d g nth opt seed_count cells sims loads h in
      record {
        table = s.table;
        result = s.result;
        labels = s.labels;
        base_seed = s.base_seed;
        seeds = s.seeds;
        height = s.shape.height;
        cells = cells;
        is_table = s.filled;
        filled = λ i k lt lt'. (
          ran i k lt lt',
          s.filled.filled i k lt lt'
              ∙ ap (λ (p : RunResult W × Simulator). some p.0) (same i k lt lt'),
          ap (λ ls. get_elem? ls i) s.labels ∙ (ran i k lt lt').labelled,
        );
        offered = λ k lt. (
          ran 0 k (omega arith) lt,
          s.loads_filled k lt ∙ ap some (or_else_lem nothing _ _ (loaded k lt)),
        );
      }
