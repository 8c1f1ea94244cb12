-- ===== src/Engine/Simulator/Drawn.antt =====
-- Generated jobs of src/atlas/model/workload.hpp on a new cluster, whose run can be measured.
use atlas_simulator.Prelude.{
  ℕ, suc, ◌+◌, ◌*◌, ◌≤◌, ◌<◌, ◌≡◌, refl, ap, List, [], ◌∷◌, some, arith, All, get_elem?, u32_mod,
  u64_mod,
}
use atlas_simulator.Model.Types.{Resources, Job}
use atlas_simulator.Model.Cluster.{make_cluster}
use atlas_simulator.Model.Cluster.Fresh.{total_capacities}
use atlas_simulator.Model.Workload.{default_resources}
use atlas_simulator.Model.Workload.Draws.{Drawn}
use atlas_simulator.Model.Workload.Jobs.{Drawn-asks}
use atlas_simulator.Engine.Board.{cores_in, memory_in}
use atlas_simulator.Engine.Simulator.Metering.{work}
use atlas_simulator.Engine.Simulator.Course.{durations}
use atlas_simulator.Engine.Simulator.Fresh.{drawn-EachFitsAlone, profiles_fit}
use atlas_simulator.Engine.Simulator.Readings.{CanMeasure}

-- Requests within a bound come to no more work than the bound for all the service time.
work_bound :
    (g : Resources → ℕ) (top : ℕ) (js : List Job)
    → ((id : ℕ) (j : Job) → get_elem? js id ≡ some j → g j.request ≤ top)
    → work g js ≤ top * durations js
work_bound g top [] h = omega arith
work_bound g top (j ∷ js) h =
    let first : g j.request * j.duration ≤ top * j.duration =
      let le = h 0 j refl in grind (arith, le) in
    let split : top * (j.duration + durations js) ≡ top * j.duration + top * durations js =
      grind arith in
    omega (arith, first, split, work_bound g top js (λ id x at. h (suc id) x at))

smaller : (a b c e : ℕ) → a ≤ b → c ≤ e → b * e < u64_mod → a * c < u64_mod
smaller a b c e le le' h =
    let first : a * c ≤ b * c = grind (arith, le) in
    let second : b * c ≤ b * e = grind (arith, le') in omega arith

-- The jobs have some service time, and the memory of so many nodes, times a time by which all of
-- them must be done, fits in 64 bits.
pub record IsMeasurable (count : ℕ) (jobs : List Job) : Type 0 where
  pub last : ℕ
  pub submitted : All (λ (j : Job). j.submit_time ≤ last) jobs
  pub some_work : 0 < durations jobs
  pub span : (last + durations jobs) * (count * 65536) < u64_mod

module _ (count bound : ℕ) (jobs : List Job) (drawn : Drawn bound 0 0 jobs) where
  asked :
      (id : ℕ) (j : Job)
      → get_elem? jobs id ≡ some j
      → (j.request.cores ≤ 16) × (j.request.memory_mb ≤ 65536)
  asked id j at =
      let (i, p, place, asks) = Drawn-asks bound 0 0 jobs id j drawn at in
      let (cores, memory) = profiles_fit i p place in
      (omega (arith, ap cores_in asks), omega (arith, ap memory_in asks))

  -- Generated jobs on a new cluster of such nodes can be measured.
  pub drawn-CanMeasure :
      0 < count
      → count * 16 < u32_mod
      → (v : IsMeasurable count jobs)
      → CanMeasure (make_cluster count default_resources) jobs v.last
  drawn-CanMeasure some_nodes few v =
      let end = v.last + durations jobs in
      let cores = total_capacities cores_in count default_resources in
      let memory = total_capacities memory_in count default_resources in
      let asked_cores : work cores_in jobs ≤ 16 * durations jobs =
        work_bound cores_in 16 jobs (λ id j at. (asked id j at).0) in
      let asked_memory : work memory_in jobs ≤ 65536 * durations jobs =
        work_bound memory_in 65536 jobs (λ id j at. (asked id j at).1) in
      let room : end * 65536 < u64_mod =
        smaller end end 65536 (count * 65536) (omega arith) (omega arith) v.span in
      record {
        each = drawn-EachFitsAlone count bound jobs drawn some_nodes;
        submitted = v.submitted;
        some_work = v.some_work;
        early = omega arith;
        summable = record { cores_sum = omega (arith, cores); memory_sum = omega (arith, memory) };
        some_cores = omega (arith, cores);
        some_memory = omega (arith, memory);
        core_span = smaller end end _ (count * 65536) (omega arith) (omega (arith, cores)) v.span;
        memory_span =
            smaller end end _ (count * 65536) (omega arith) (omega (arith, memory)) v.span;
        cores_fit = omega arith;
        memory_fit = omega arith;
      }
