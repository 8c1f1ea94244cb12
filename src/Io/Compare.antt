-- ===== src/Io/Compare.antt =====
-- src/atlas/io/compare.hpp and compare.cpp, up to the printing of the table.
pub mod Wins
pub mod Grid
pub mod Cells
mod Tests
use Prim.Native.String.{String, ◌++◌ as ◌<>◌}
use atlas_simulator.Prelude.{
  ℕ, zero, suc, ◌+◌, ◌-◌, ◌*◌, ◌/◌, ◌%◌, Bool, List, [], ◌∷◌, ◌++◌, Option, none, some, map, ltb,
  ◌==◌, if◌then◌else◌, ◌>>=◌, get_elem?, set, length, replicate, add64,
}
use atlas_simulator.Doubles.{Doubles, Engine}
use atlas_simulator.Model.Types.{Job}
use atlas_simulator.Model.Random.{second}
use atlas_simulator.Model.Cluster.{Cluster, make_cluster}
use atlas_simulator.Model.Workload.{default_resources, make_generator, generate}
use atlas_simulator.Sched.Factory.{
  scheduler_names, make_scheduler, queue_policy_names, make_queue_policy,
}
use atlas_simulator.Metrics.Samples.{turnaround_times, queue_wait_times}
use atlas_simulator.Metrics.Percentiles.{NthElement, percentiles}
use atlas_simulator.Metrics.Load.{LoadFactor, offered_load}
use atlas_simulator.Engine.Simulator.{Simulator, make_simulator, run}
use atlas_simulator.Engine.Simulator.Mean.{mean_utilization}
use atlas_simulator.Io.Options.{Options}

pub record RunResult (W : Type 0) : Type 0 where
  pub p95_turnaround : ℕ
  pub p95_queue_wait : ℕ
  pub utilization : LoadFactor W
  pub censored : ℕ
  pub backfilled : ℕ

pub record Comparison (W : Type 0) : Type 0 where
  pub labels : List String
  pub base_seed : ℕ
  pub seeds : ℕ
  pub offered_rho : List (LoadFactor W)
  pub rows : List (List (RunResult W))

-- One cell of the table, `rows[i][k]`.
abbrev pub cell_at {ℓ} : {A : Type ℓ} → List (List A) → ℕ → ℕ → Option A
cell_at rows i k = do row ← get_elem? rows i; get_elem? row k

-- A write to `rows[i][k]`.
unfoldable pub set_cell {ℓ} : {A : Type ℓ} → List (List A) → ℕ → ℕ → A → Option (List (List A))
set_cell rows i k a = do
  row ← get_elem? rows i
  old ← get_elem? row k
  some (set rows i (set row k a))

-- The labels of one queue policy, and those of all.
abbrev pub labels_of : List String → List String
labels_of [] = []
labels_of (queue ∷ queues) =
    map (λ sched. queue <> ("/" <> sched)) scheduler_names ++ labels_of queues

abbrev pub configs : ℕ
configs = length scheduler_names * length queue_policy_names

unfoldable pub p95_or_zero : NthElement → List ℕ → Option ℕ
p95_or_zero nth [] = some 0
p95_or_zero nth (x ∷ xs) = do (p, reordered) ← percentiles nth (x ∷ xs); some p.p95

module _ {W E : Type 0} (d : Doubles W) (g : Engine E) (nth : NthElement) where
  -- Configuration `i` on the seed, to the end of its run.
  unfoldable pub run_config : Options W → ℕ → ℕ → Option (RunResult W × Simulator)
  unfolding p95_or_zero
  run_config opts seed i = do
    queue_name ← get_elem? queue_policy_names (i / length scheduler_names)
    sched_name ← get_elem? scheduler_names (i % length scheduler_names)
    gen ← make_generator d g seed opts.arrival_rate opts.estimate_padding
    (jobs, gen') ← generate d g gen opts.jobs
    sim ← run (
        make_simulator (make_cluster opts.nodes default_resources) jobs none
          (make_scheduler sched_name) (make_queue_policy queue_name))
    let turnaround = turnaround_times sim.jobs
    p95_turnaround ← p95_or_zero nth turnaround.times
    p95_queue_wait ← p95_or_zero nth (queue_wait_times sim.jobs).times
    utilization ← mean_utilization d sim
    some (
      record {
        p95_turnaround = p95_turnaround;
        p95_queue_wait = p95_queue_wait;
        utilization = utilization;
        censored = turnaround.skipped;
        backfilled = sim.backfilled;
      },
      sim,
    )

  -- `if (i == 0) res.offered_rho[k] = ...`
  offer : ℕ → ℕ → Simulator → List (LoadFactor W) → Option (List (LoadFactor W))
  offer zero k sim rho = do
    load ← offered_load d sim.jobs sim.cluster
    old ← get_elem? rho k
    some (set rho k load)
  offer (suc i) k sim rho = some rho

  -- The inner loop: `left` more configurations, from `i` on.
  pub config_loop : Options W → ℕ → ℕ → ℕ → Comparison W → Option (Comparison W)
  unfolding offer
  config_loop opts k zero i res = some res
  config_loop opts k (suc left) i res = do
    (cell, sim) ← run_config opts (add64 opts.seed k) i
    rows ← set_cell res.rows i k cell
    offered_rho ← offer i k sim res.offered_rho
    config_loop opts k left (suc i) (record res { rows = rows; offered_rho = offered_rho })

  -- The outer loop: `left` more seeds, from `k` on.
  pub seed_loop : Options W → ℕ → ℕ → Comparison W → Option (Comparison W)
  unfolding config_loop
  seed_loop opts zero k res = some res
  seed_loop opts (suc left) k res = do
    res' ← config_loop opts k configs 0 res
    seed_loop opts left (suc k) res'

  abbrev no_load : LoadFactor W
  no_load = record { cores = d.of_nat 0; memory = d.of_nat 0 }

  abbrev no_result : RunResult W
  no_result = record {
    p95_turnaround = 0;
    p95_queue_wait = 0;
    utilization = no_load;
    censored = 0;
    backfilled = 0;
  }

  -- The state in which the loops begin.
  unfoldable pub empty_table : Options W → ℕ → Comparison W
  empty_table opts seed_count = record {
    labels = labels_of queue_policy_names;
    base_seed = opts.seed;
    seeds = seed_count;
    offered_rho = replicate seed_count no_load;
    rows = replicate configs (replicate seed_count no_result);
  }

  unfoldable pub compare_schedulers : Options W → ℕ → Option (Comparison W)
  unfolding seed_loop
  compare_schedulers opts seed_count = seed_loop opts seed_count 0 (empty_table opts seed_count)

-- The inner loop of `win_counts`: the best row of column `k` so far, and `left` more from `i` on.
module _ {W : Type 0} where
  pub best_of : List (List (RunResult W)) → ℕ → ℕ → ℕ → ℕ → Option ℕ
  best_of rows k zero i best = some best
  best_of rows k (suc left) i best = do
    a ← cell_at rows i k
    b ← cell_at rows best k
    best_of rows k left (suc i) (if ltb a.p95_turnaround b.p95_turnaround then i else best)

  -- The outer loop: `left` more seeds, from `k` on.
  pub count_wins : List (List (RunResult W)) → ℕ → ℕ → List ℕ → Option (List ℕ)
  unfolding best_of
  count_wins rows zero k wins = some wins
  count_wins rows (suc left) k wins = do
    best ← best_of rows k (length rows - 1) 1 0
    old ← get_elem? wins best
    count_wins rows left (suc k) (set wins best (add64 old 1))

  unfoldable pub win_counts : Comparison W → Option (List ℕ)
  unfolding count_wins
  win_counts cmp = count_wins cmp.rows cmp.seeds 0 (replicate (length cmp.rows) 0)
