-- ===== src/Program/Simulate.antt =====
-- The runs of src/main.cpp and of src/atlas/io/compare.cpp: a cluster and a workload from a seed,
-- as the simulator takes them.
use Prim.Native.String.{String}
use atlas_simulator.Prelude.{
  ℕ, subst, ◌+◌, ◌*◌, ◌^◌, ◌≤◌, ◌<◌, ◌≡◌, refl, ap, ◌≢◌, inl, inr, List, [], Option, some, arith,
  length, true, ◌>>=◌, u32_mod, u64_mod,
}
use atlas_simulator.Doubles.{Doubles, Engine, IsRounded}
use atlas_simulator.Model.Types.{Job}
use atlas_simulator.Model.Cluster.{make_cluster}
use atlas_simulator.Model.Workload.{default_resources, WorkloadGenerator, make_generator, generate}
use atlas_simulator.Model.Workload.Draws.{IsRate}
use atlas_simulator.Model.Workload.Jobs.{Generated, generate-Generated}
use atlas_simulator.Sched.Place.{Scheduler}
use atlas_simulator.Sched.Place.Any.{IsReady}
use atlas_simulator.Sched.Factory.{make_scheduler}
use atlas_simulator.Sched.Factory.Names.{make_scheduler-Serves}
use atlas_simulator.Io.Options.{Options}
use atlas_simulator.Io.Options.Accepted.{IsAccepted}
use atlas_simulator.Io.Options.Words.{IsInRange}
use atlas_simulator.Engine.Simulator.Fresh.{drawn-CanRun, drawn-EachFitsAlone}
use atlas_simulator.Engine.Simulator.Seed.{CanRun}
use atlas_simulator.Engine.Simulator.Complete.{EachFitsAlone}
use atlas_simulator.Engine.Simulator.Readings.{CanMeasure}
use atlas_simulator.Engine.Simulator.Drawn.{IsMeasurable, drawn-CanMeasure}

-- A scheduler that a name makes is ready for any cluster.
pub made-IsReady :
    (name : String) (s : Scheduler) (count : ℕ) → make_scheduler name ≡ some s → IsReady s count
made-IsReady name s count e = elim (make_scheduler-Serves name) [
  | inl (others, nothing) ↦ cc
  | inr (i, at, a, made, named, ready) ↦
      let same : a ≡ s = cc in subst (λ x. IsReady x count) same (ready count)
]

module _ {W E : Type 0} (d : Doubles W) (g : Engine E) (opt : Options W) where
  -- The jobs that the generator draws from a seed.
  abbrev pub workload : ℕ → Option (List Job × WorkloadGenerator W E)
  workload seed = do
    gen ← make_generator d g seed opt.arrival_rate opt.estimate_padding
    generate d g gen opt.jobs

  -- Options whose runs on the seed can be reported: the total of the cores fits in 32 bits, and
  -- whatever is drawn from the seed can be measured.
  pub record CanReport (seed : ℕ) : Type 0 where
    pub few_nodes : opt.nodes * 16 < u32_mod
    pub measurable :
        (js : List Job) (gen : WorkloadGenerator W E)
        → workload seed ≡ some (js, gen)
        → IsMeasurable opt.nodes js

module _ {W E : Type 0} (d : Doubles W) (g : Engine E) (opt : Options W) (bound : ℕ) where
  -- Acceptable options, for which no double that is drawn exceeds the bound, the padding is no more
  -- than a whole number, the estimates fit in 63 bits, and the clock has room for all jobs.
  pub record CanSimulate : Type 0 where
    pub rounded : IsRounded d
    pub accepted : IsAccepted d opt
    pub in_range : IsInRange opt
    pub rate : IsRate d g opt.arrival_rate bound
    pub small : bound ≤ 2 ^ 53
    pub most : ℕ
    pub padding_most : d.le opt.estimate_padding (d.of_nat most) ≡ true
    pub most_small : most + 1 ≤ 2 ^ 53
    pub estimates_fit : bound * (most + 1) ≤ 2 ^ 63
    pub room : 2 * (opt.jobs * bound) < u64_mod

  -- The jobs that are generated from a seed, and that they can be run.
  pub record Simulated (seed : ℕ) (scheduler : Option Scheduler) : Type 0 where
    pub start : WorkloadGenerator W E
    pub starts : make_generator d g seed opt.arrival_rate opt.estimate_padding ≡ some start
    pub generated : Generated d g bound opt.jobs (generate d g start opt.jobs)
    pub runs : CanRun (make_cluster opt.nodes default_resources) generated.jobs scheduler
    pub each : EachFitsAlone (make_cluster opt.nodes default_resources) generated.jobs

  not_empty : (jobs : List Job) → 0 < length jobs → jobs ≢ []
  not_empty jobs h e = omega (arith, ap length e)

  pub simulated :
      (seed : ℕ) (scheduler : Option Scheduler)
      → CanSimulate
      → ((s : Scheduler) → scheduler ≡ some s → IsReady s opt.nodes)
      → Simulated seed scheduler
  unfolding make_generator
  simulated seed scheduler c ready =
      let a = c.accepted in
      let start : WorkloadGenerator W E = record {
        rng = g.start seed;
        arrival_rate = opt.arrival_rate;
        estimate_padding = opt.estimate_padding;
      } in
      let made =
        generate-Generated d g c.rounded start bound c.most opt.jobs c.rate a.padding_pos
          c.padding_most c.small c.most_small c.estimates_fit c.in_range.jobs
          (omega (arith, c.room)) in
      let number = made.number in
      let scaled : length made.jobs * bound ≡ opt.jobs * bound = ap (λ n. n * bound) number in
      record {
        start = start;
        starts = rw (a.rate_pos, a.padding_pos) refl;
        generated = made;
        runs =
            drawn-CanRun opt.nodes bound made.jobs made.drawn scheduler
              (not_empty made.jobs (omega (arith, a.some_jobs))) (omega (arith, c.in_range.jobs))
              c.in_range.nodes (omega (arith, c.room, scaled)) ready;
        each = drawn-EachFitsAlone opt.nodes bound made.jobs made.drawn a.some_nodes;
      }

  pub workload_lem :
      (seed : ℕ) (scheduler : Option Scheduler) (v : Simulated seed scheduler)
      → workload d g opt seed ≡ some (v.generated.jobs, v.generated.generator)
  workload_lem seed scheduler v = rw (v.starts, ◌>>=◌) v.generated.result

  -- What is drawn can be measured.
  pub measured :
      (seed : ℕ) (scheduler : Option Scheduler)
      → CanSimulate
      → CanReport d g opt seed
      → (v : Simulated seed scheduler)
      → (last : ℕ) × CanMeasure (make_cluster opt.nodes default_resources) v.generated.jobs last
  measured seed scheduler c r v =
      let m = r.measurable v.generated.jobs v.generated.generator (workload_lem seed scheduler v) in
      (
        m.last,
        drawn-CanMeasure opt.nodes bound v.generated.jobs v.generated.drawn c.accepted.some_nodes
            r.few_nodes m,
      )
