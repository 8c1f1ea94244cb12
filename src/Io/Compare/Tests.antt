-- ===== src/Io/Compare/Tests.antt =====
-- A comparison of two rows on three seeds: the first row wins the tie.
use atlas_simulator.Prelude.{ℕ, zero, suc, ◌≡◌, ◌<◌, refl, [], ◌∷◌, some, arith}
use atlas_simulator.Metrics.Load.{LoadFactor}
use atlas_simulator.Io.Compare.{RunResult, Comparison, cell_at, win_counts}
use atlas_simulator.Io.Compare.Wins.{HasWins, win_counts-HasWins}

abbrev no_load : LoadFactor ℕ
no_load = record { cores = 0; memory = 0 }

abbrev took : ℕ → RunResult ℕ
took p95 = record {
  p95_turnaround = p95;
  p95_queue_wait = 0;
  utilization = no_load;
  censored = 0;
  backfilled = 0;
}

abbrev two_rows : Comparison ℕ
two_rows = record {
  labels = "fifo/first_fit" ∷ "fifo/round_robin" ∷ [];
  base_seed = 1;
  seeds = 3;
  offered_rho = no_load ∷ no_load ∷ no_load ∷ [];
  rows = (took 7 ∷ took 4 ∷ took 9 ∷ []) ∷ (took 7 ∷ took 3 ∷ took 11 ∷ []) ∷ [];
}

abbrev cells : ℕ → ℕ → RunResult ℕ
cells zero zero = took 7
cells zero (suc zero) = took 4
cells zero (suc (suc k)) = took 9
cells (suc i) zero = took 7
cells (suc i) (suc zero) = took 3
cells (suc i) (suc (suc k)) = took 11

filled : (i k : ℕ) → i < 2 → k < 3 → cell_at two_rows.rows i k ≡ some (cells i k)
filled zero zero lt lt' = refl
filled zero (suc zero) lt lt' = refl
filled zero (suc (suc zero)) lt lt' = refl
filled zero (suc (suc (suc k))) lt lt' = absurd (omega arith)
filled (suc zero) zero lt lt' = refl
filled (suc zero) (suc zero) lt lt' = refl
filled (suc zero) (suc (suc zero)) lt lt' = refl
filled (suc zero) (suc (suc (suc k))) lt lt' = absurd (omega arith)
filled (suc (suc i)) k lt lt' = absurd (omega arith)

win_counts-HasWins_example : HasWins two_rows cells (win_counts two_rows)
win_counts-HasWins_example =
    win_counts-HasWins two_rows cells (omega arith) (omega arith)
      (record { height = refl; filled = filled })
