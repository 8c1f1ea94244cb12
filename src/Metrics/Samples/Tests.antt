-- ===== src/Metrics/Samples/Tests.antt =====
-- Times of two jobs, and the 95th percentile of 130 values.
use atlas_simulator.Prelude.{ℕ, List, [], ◌∷◌, ◌*◌, ◌≤◌, ◌<◌, ◌≡◌, some, suc, arith}
use atlas_simulator.Model.Types.{Job, JobState, queued, done}
use atlas_simulator.Metrics.Samples.{percentile_rank, turnaround_times}
use atlas_simulator.Metrics.Samples.Times.{Taken, turnaround_times-Taken}
use atlas_simulator.Metrics.Samples.Ranks.{percentile_rank_lem}

percentile_rank_lem_example :
    (rank : ℕ) × (percentile_rank 130 95 ≡ some rank)
    × (rank < 130)
    × (130 * 95 ≤ 100 * suc rank)
    × (100 * rank < 130 * 95)
percentile_rank_lem_example =
    percentile_rank_lem 130 95 (omega arith) (omega arith) (omega arith) (omega arith)

abbrev job : JobState → Job
job state = record {
  id = 0;
  request = record { cores = 1; memory_mb = 1 };
  duration = 3;
  estimated_duration = 3;
  submit_time = 4;
  start_time = 5;
  finish_time = 8;
  node = 0;
  state = state;
}

abbrev two : List Job
two = job done ∷ job queued ∷ []

turnaround_times-Taken_example :
    Taken two (turnaround_times two).skipped (turnaround_times two).times
turnaround_times-Taken_example =
    turnaround_times-Taken two (omega arith)
      ((λ e. (omega arith, omega arith)), ((λ e. (omega arith, omega arith)), tt))
