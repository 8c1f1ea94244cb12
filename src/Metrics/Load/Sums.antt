-- ===== src/Metrics/Load/Sums.antt =====
-- The two sums of src/atlas/metrics/offered_load.cpp and the product that `mean` divides by.
use atlas_simulator.Prelude.{
  ℕ, ◌+◌, ◌*◌, ◌≤◌, ◌<◌, ◌≡◌, refl, ◌∙◌, List, [], ◌∷◌, some, arith, sum_of, add64_exact,
  mul64_exact, u64_mod, ◌-◌, get_elem?, get_elem?-lt, length, lt→ltb, sub64_exact, ◌>>=◌,
}
use atlas_simulator.Model.Types.{Node, Job}
use atlas_simulator.Doubles.{Doubles}
use atlas_simulator.Model.Cluster.{Cluster}
use atlas_simulator.Model.Cluster.Sums.{IsSummable, total_capacity_exact}
use atlas_simulator.Metrics.Load.{demand, offered_load}

abbrev pub core_seconds : Job → ℕ
core_seconds j = j.duration * j.request.cores

abbrev pub memory_seconds : Job → ℕ
memory_seconds j = j.duration * j.request.memory_mb

abbrev pub capacity_cores : Node → ℕ
capacity_cores n = n.capacity.cores

abbrev pub capacity_memory : Node → ℕ
capacity_memory n = n.capacity.memory_mb

pub demand_exact :
    (cores memory : ℕ) (jobs : List Job)
    → cores + sum_of core_seconds jobs < u64_mod
    → memory + sum_of memory_seconds jobs < u64_mod
    → demand (cores, memory) jobs
      ≡ (cores + sum_of core_seconds jobs, memory + sum_of memory_seconds jobs)
unfolding demand
demand_exact cores memory [] h k = ground arith
demand_exact cores memory (j ∷ js) h k =
    rw
      (
        mul64_exact j.duration j.request.cores (omega arith),
        mul64_exact j.duration j.request.memory_mb (omega arith),
        add64_exact cores (core_seconds j) (omega arith),
        add64_exact memory (memory_seconds j) (omega arith),
      )
      (demand_exact (cores + core_seconds j) (memory + memory_seconds j) js (omega arith)
          (omega arith)
        ∙ ground arith)

demand_all :
    (jobs : List Job)
    → sum_of core_seconds jobs < u64_mod
    → sum_of memory_seconds jobs < u64_mod
    → demand (0, 0) jobs ≡ (sum_of core_seconds jobs, sum_of memory_seconds jobs)
demand_all jobs h k = demand_exact 0 0 jobs (omega arith) (omega arith) ∙ ground arith

-- What the quotients stand for, where nothing wraps around.
pub record IsMeasurable (jobs : List Job) (cluster : Cluster) (first last : Job) : Type 0 where
  pub first_at : get_elem? jobs 0 ≡ some first
  pub last_at : get_elem? jobs (length jobs - 1) ≡ some last
  pub in_order : first.submit_time ≤ last.submit_time
  pub last_fits : last.submit_time < u64_mod
  pub summable : IsSummable cluster
  pub cores_fit : sum_of core_seconds jobs < u64_mod
  pub memory_fit : sum_of memory_seconds jobs < u64_mod
  pub core_span :
      sum_of capacity_cores cluster.nodes * (last.submit_time - first.submit_time) < u64_mod
  pub memory_span :
      sum_of capacity_memory cluster.nodes * (last.submit_time - first.submit_time) < u64_mod

module _ {W : Type 0} (d : Doubles W) where
  -- For jobs of which there is a first and a last, with the last submitted no earlier, and where
  -- no total leaves 64 bits or, for the cores of the cluster, 32: `offered_load` comes back, and
  -- divides the service time of all jobs, times what each asks for, by the capacity of all nodes,
  -- times the span from the first submit time to the last.
  pub offered_load_exact :
      (jobs : List Job) (cluster : Cluster) (first last : Job)
      → IsMeasurable jobs cluster first last
      → let span = last.submit_time - first.submit_time in
        offered_load d jobs cluster
        ≡ some (record {
          cores =
              d.div
                (d.of_nat (sum_of core_seconds jobs))
                (d.of_nat (sum_of capacity_cores cluster.nodes * span));
          memory =
              d.div
                (d.of_nat (sum_of memory_seconds jobs))
                (d.of_nat (sum_of capacity_memory cluster.nodes * span));
        })
  unfolding offered_load
  offered_load_exact jobs cluster first last v =
      rw
        (
          lt→ltb 0 (length jobs) (omega (arith, get_elem?-lt jobs 0 v.first_at)),
          v.first_at,
          v.last_at,
          ◌>>=◌,
          sub64_exact last.submit_time first.submit_time v.in_order v.last_fits,
          total_capacity_exact cluster v.summable,
          demand_all jobs v.cores_fit v.memory_fit,
          mul64_exact _ _ v.core_span,
          mul64_exact _ _ v.memory_span,
        )
        refl
