-- ===== src/Io/Summary.antt =====
-- The numbers that report_comparison of src/atlas/io/compare.cpp prints, and how they are computed.
pub mod Rows
mod Tests
use Prim.Native.String.{String}
use atlas_simulator.Prelude.{
  ℕ, zero, suc, ◌+◌, ◌/◌, not, List, [], ◌∷◌, Option, none, some, map, assert, ltb, ◌==◌,
  if◌then◌else◌, ◌>>=◌, ◌>>◌, get_elem?, length, add64, sub64,
}
use atlas_simulator.Doubles.{Doubles}
use atlas_simulator.Model.Random.{second}
use atlas_simulator.Metrics.Load.{LoadFactor}
use atlas_simulator.Io.Compare.{RunResult, Comparison, cell_at, win_counts}

pub record PairedDelta (W : Type 0) : Type 0 where
  pub mean : W
  pub se : W

-- One line of the table. The baseline has no delta.
pub record ReportRow (W : Type 0) : Type 0 where
  pub label : String
  pub util_cores : W
  pub turn_mean : W
  pub turn_sd : W
  pub queue_mean : W
  pub delta : Option (PairedDelta W)
  pub wins : ℕ
  pub backfilled : ℕ

-- The line above the table, and the table.
pub record Report (W : Type 0) : Type 0 where
  pub first_seed : ℕ
  pub last_seed : ℕ
  pub rho_cores : W
  pub rho_memory : W
  pub rows : List (ReportRow W)

-- `backfilled += r.backfilled`, from where it stands.
pub total_backfilled : {W : Type 0} → ℕ → List (RunResult W) → ℕ
total_backfilled backfilled [] = backfilled
total_backfilled backfilled (r ∷ rs) = total_backfilled (add64 backfilled r.backfilled) rs

module _ {W : Type 0} (d : Doubles W) where
  abbrev pub seconds : ℕ → W
  seconds t = d.div (d.of_nat t) (d.of_nat second)

  pub add_up : W → List W → W
  add_up sum [] = sum
  add_up sum (v ∷ vs) = add_up (d.add sum v) vs

  unfoldable pub mean_of : List W → W
  unfolding add_up
  mean_of [] = d.of_nat 0
  mean_of (v ∷ vs) = d.div (add_up (d.of_nat 0) (v ∷ vs)) (d.of_nat (length (v ∷ vs)))

  pub add_squares : W → W → List W → W
  add_squares mean sum_sq [] = sum_sq
  add_squares mean sum_sq (v ∷ vs) =
      add_squares mean (d.add sum_sq (d.mul (d.sub v mean) (d.sub v mean))) vs

  unfoldable pub stddev : List W → W → W
  unfolding add_squares
  stddev values mean =
      if ltb (length values) 2
      then d.of_nat 0
      else d.sqrt (d.div (add_squares mean (d.of_nat 0) values) (d.of_nat (length values)))

  -- The loop of `paired_delta`: `left` more seeds, from `k` on.
  pub deltas : Comparison W → ℕ → ℕ → ℕ → ℕ → Option (List W)
  deltas cmp row baseline zero k = some []
  deltas cmp row baseline (suc left) k = do
    a ← cell_at cmp.rows row k
    b ← cell_at cmp.rows baseline k
    rest ← deltas cmp row baseline left (suc k)
    some (d.sub (seconds a.p95_turnaround) (seconds b.p95_turnaround) ∷ rest)

  unfoldable pub paired_delta : Comparison W → ℕ → ℕ → Option (PairedDelta W)
  unfolding deltas
  paired_delta cmp row baseline = do
    values ← deltas cmp row baseline cmp.seeds 0
    some (record {
      mean = mean_of values;
      se = d.div (stddev values (mean_of values)) (d.sqrt (d.of_nat cmp.seeds));
    })

  -- `i == kBaseline` decides between the word and the delta.
  pub delta_of : Comparison W → ℕ → Option (Option (PairedDelta W))
  delta_of cmp zero = some none
  delta_of cmp (suc i) = do delta ← paired_delta cmp (suc i) 0; some (some delta)

  unfoldable pub report_row : Comparison W → List ℕ → ℕ → List (RunResult W) → Option (ReportRow W)
  unfolding delta_of total_backfilled
  report_row cmp wins i row = do
    delta ← delta_of cmp i
    label ← get_elem? cmp.labels i
    won ← get_elem? wins i
    assert (not (cmp.seeds == 0))
    let turn = map (λ r. seconds r.p95_turnaround) row
    some (record {
      label = label;
      util_cores = mean_of (map (λ r. r.utilization.cores) row);
      turn_mean = mean_of turn;
      turn_sd = stddev turn (mean_of turn);
      queue_mean = mean_of (map (λ r. seconds r.p95_queue_wait) row);
      delta = delta;
      wins = won;
      backfilled = total_backfilled 0 row / cmp.seeds;
    })

  pub report_rows :
      Comparison W → List ℕ → ℕ → List (List (RunResult W)) → Option (List (ReportRow W))
  report_rows cmp wins i [] = some []
  report_rows cmp wins i (row ∷ rows) = do
    line ← report_row cmp wins i row
    rest ← report_rows cmp wins (suc i) rows
    some (line ∷ rest)

  unfoldable pub report_comparison : Comparison W → Option (Report W)
  unfolding report_rows
  report_comparison cmp = do
    wins ← win_counts cmp
    rows ← report_rows cmp wins 0 cmp.rows
    some (record {
      first_seed = cmp.base_seed;
      last_seed = sub64 (add64 cmp.base_seed cmp.seeds) 1;
      rho_cores = mean_of (map (λ rho. rho.cores) cmp.offered_rho);
      rho_memory = mean_of (map (λ rho. rho.memory) cmp.offered_rho);
      rows = rows;
    })
