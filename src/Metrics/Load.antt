-- ===== src/Metrics/Load.antt =====
-- src/atlas/metrics/load_factor.hpp, offered_load.cpp, and `mean` of utilization.cpp.
pub mod Sums
pub mod Mean
mod Tests
use atlas_simulator.Prelude.{
  ℕ, ◌-◌, ◌≡◌, not, List, [], ◌∷◌, Option, some, none, ltb, ◌==◌, assert, ◌>>=◌, ◌>>◌, get_elem?,
  length, add64, sub64, mul64,
}
use atlas_simulator.Doubles.{Doubles}
use atlas_simulator.Model.Types.{Resources, Job, never}
use atlas_simulator.Model.Cluster.{Cluster, total_capacity}
use atlas_simulator.Metrics.Utilization.{UtilizationIntegral}

pub record LoadFactor (W : Type 0) : Type 0 where
  pub cores : W
  pub memory : W

-- The loop over the jobs: two sums, from where they stand.
pub demand : ℕ × ℕ → List Job → ℕ × ℕ
demand (cores, memory) [] = (cores, memory)
demand (cores, memory) (j ∷ js) =
    demand
      (
        add64 cores (mul64 j.duration j.request.cores),
        add64 memory (mul64 j.duration j.request.memory_mb),
      )
      js

module _ {W : Type 0} (d : Doubles W) where
  abbrev fraction : ℕ → ℕ → W
  fraction a b = d.div (d.of_nat a) (d.of_nat b)

  unfoldable pub mean : UtilizationIntegral → ℕ → Resources → Option (LoadFactor W)
  mean u end capacity = do
    assert (ltb 0 end)
    let total_core_ticks = mul64 end capacity.cores
    let total_memory_ticks = mul64 end capacity.memory_mb
    assert (ltb 0 total_core_ticks)
    assert (ltb 0 total_memory_ticks)
    assert (not (end == never))
    some (record {
      cores = fraction u.core_ticks total_core_ticks;
      memory = fraction u.memory_ticks total_memory_ticks;
    })

  unfoldable pub offered_load : List Job → Cluster → Option (LoadFactor W)
  unfolding demand
  offered_load jobs cluster = do
    assert (ltb 0 (length jobs))
    first ← get_elem? jobs 0
    last ← get_elem? jobs (length jobs - 1)
    let arrival_span = sub64 last.submit_time first.submit_time
    let cap = total_capacity cluster
    let (core_seconds, memory_seconds) = demand (0, 0) jobs
    some (record {
      cores = fraction core_seconds (mul64 cap.cores arrival_span);
      memory = fraction memory_seconds (mul64 cap.memory_mb arrival_span);
    })
