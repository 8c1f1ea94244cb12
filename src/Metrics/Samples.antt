-- ===== src/Metrics/Samples.antt =====
-- src/atlas/metrics/time_sample.cpp, and the rank of percentiles.cpp.
pub mod Times
pub mod Ranks
mod Tests
use atlas_simulator.Prelude.{
  ℕ, suc, ◌+◌, ◌/◌, ◌≤◌, ◌≡◌, Bool, true, false, ◌&&◌, List, [], ◌∷◌, Option, some, none, assert,
  ◌>>=◌, ◌>>◌, ltb, leb, ◌==◌, if◌then◌else◌, get_elem?, length, add64, sub64, mul64,
}
use atlas_simulator.Model.Types.{Job, JobState, queued, running as is_on_node, done, never}

pub record TimeSample : Type 0 where
  pub skipped : ℕ
  pub times : List ℕ

abbrev pub is_done : JobState → Bool
is_done done = true
is_done _ = false

-- The loop of both functions: the jobs that do not count are counted, the others measured.
pub sample : (Job → Bool) → (Job → ℕ) → List Job → TimeSample
sample counts measure [] = record { skipped = 0; times = [] }
sample counts measure (j ∷ js) =
    let rest = sample counts measure js in
    if counts j
    then record { skipped = rest.skipped; times = measure j ∷ rest.times }
    else record { skipped = add64 rest.skipped 1; times = rest.times }

unfoldable pub turnaround_times : List Job → TimeSample
unfolding sample
turnaround_times = sample (λ j. is_done j.state) (λ j. sub64 j.finish_time j.submit_time)

unfoldable pub queue_wait_times : List Job → TimeSample
unfolding sample
queue_wait_times =
    sample (λ j. if j.start_time == never then false else true)
      (λ j. sub64 j.start_time j.submit_time)

-- `none` is the failed assertion.
unfoldable pub percentile_rank : ℕ → ℕ → Option ℕ
percentile_rank n p = do
  assert (ltb 0 n && (ltb 0 p && leb p 100))
  some (sub64 (add64 (mul64 n p) 99 / 100) 1)
