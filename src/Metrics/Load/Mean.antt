-- ===== src/Metrics/Load/Mean.antt =====
-- `mean` of src/atlas/metrics/utilization.cpp where nothing wraps around, and `offered_load` for any
-- jobs.
use atlas_simulator.Prelude.{
  ℕ, ◌-◌, ◌*◌, ◌<◌, ◌≡◌, refl, not, true, List, some, arith, lt→ltb, ◌==◌, ◌>>=◌, get_elem?-in,
  length, mul64_exact, u64_mod,
}
use atlas_simulator.Doubles.{Doubles}
use atlas_simulator.Model.Types.{Resources, Job, never}
use atlas_simulator.Model.Cluster.{Cluster}
use atlas_simulator.Metrics.Utilization.{UtilizationIntegral}
use atlas_simulator.Metrics.Load.{LoadFactor, mean, offered_load}

product_pos : (a b : ℕ) → 0 < a → 0 < b → 0 < a * b
product_pos a b h k = grind arith

module _ {W : Type 0} (d : Doubles W) where
  -- The integral over the capacity times the time, for each resource.
  pub mean_exact :
      (u : UtilizationIntegral) (time : ℕ) (capacity : Resources)
      → 0 < time
      → time < never
      → 0 < capacity.cores
      → 0 < capacity.memory_mb
      → time * capacity.cores < u64_mod
      → time * capacity.memory_mb < u64_mod
      → mean d u time capacity
        ≡ some (record {
          cores = d.div (d.of_nat u.core_ticks) (d.of_nat (time * capacity.cores));
          memory = d.div (d.of_nat u.memory_ticks) (d.of_nat (time * capacity.memory_mb));
        })
  unfolding mean
  mean_exact u time capacity later early cores memory fits fits' =
      let ended : not (time == never) ≡ true = ground arith in
      rw
        (
          lt→ltb 0 time later,
          mul64_exact time capacity.cores fits,
          mul64_exact time capacity.memory_mb fits',
          lt→ltb 0 (time * capacity.cores) (product_pos time capacity.cores later cores),
          lt→ltb 0 (time * capacity.memory_mb) (product_pos time capacity.memory_mb later memory),
          ended,
        )
        refl

  -- With at least one job, no assertion fails.
  pub offered_load_total :
      (jobs : List Job) (cluster : Cluster)
      → 0 < length jobs
      → (load : LoadFactor W) × (offered_load d jobs cluster ≡ some load)
  unfolding offered_load
  offered_load_total jobs cluster some_jobs =
      let (first, at) = get_elem?-in jobs 0 some_jobs in
      let (last, there) = get_elem?-in jobs (length jobs - 1) (omega arith) in
      rw (lt→ltb 0 (length jobs) some_jobs, at, there, ◌>>=◌) (_, refl)
