-- ===== src/Io/Summary/Tests.antt =====
-- The report of two rows on one seed.
use atlas_simulator.Prelude.{ℕ, zero, suc, ◌≡◌, ◌<◌, ◌+◌, refl, ◌*◌, [], ◌∷◌, some, arith}
use atlas_simulator.Doubles.{whole}
use atlas_simulator.Metrics.Load.{LoadFactor}
use atlas_simulator.Io.Compare.{RunResult, Comparison, cell_at}
use atlas_simulator.Io.Summary.{report_comparison}
use atlas_simulator.Io.Summary.Rows.{Reports, report_comparison-Reports}

abbrev load : LoadFactor ℕ
load = record { cores = 1; memory = 2 }

abbrev cells : ℕ → ℕ → RunResult ℕ
cells i k = record {
  p95_turnaround = 3000000 * (i + 1);
  p95_queue_wait = 1000000;
  utilization = load;
  censored = 0;
  backfilled = i;
}

abbrev one_seed : Comparison ℕ
one_seed = record {
  labels = "fifo/first_fit" ∷ "fifo/round_robin" ∷ [];
  base_seed = 7;
  seeds = 1;
  offered_rho = load ∷ [];
  rows = (cells 0 0 ∷ []) ∷ (cells 1 0 ∷ []) ∷ [];
}

filled : (i k : ℕ) → i < 2 → k < 1 → cell_at one_seed.rows i k ≡ some (cells i k)
filled zero zero lt lt' = refl
filled (suc zero) zero lt lt' = refl
filled zero (suc k) lt lt' = absurd (omega arith)
filled (suc zero) (suc k) lt lt' = absurd (omega arith)
filled (suc (suc i)) k lt lt' = absurd (omega arith)

report_comparison-Reports_example : Reports one_seed (report_comparison whole one_seed)
report_comparison-Reports_example =
    report_comparison-Reports whole one_seed cells (omega arith) (omega arith) (omega arith)
      (record { height = refl; filled = filled }) refl
