-- ===== src/Program/Sweep.antt =====
-- One run of the sweep of src/atlas/io/compare.cpp, from the options that the program accepts.
use Prim.Native.String.{String, ◌++◌ as ◌<>◌}
use atlas_simulator.Prelude.{
  ℕ, zero, suc, ◌+◌, ◌*◌, ◌/◌, ◌%◌, ◌<◌, ◌≡◌, ◌≢◌, refl, List, [], ◌∷◌, Option, none, some, arith,
  length, map, get_elem?, get_elem?-in, ◌>>=◌, u64_mod,
}
use atlas_simulator.Doubles.{Doubles, Engine}
use atlas_simulator.Model.Types.{Job}
use atlas_simulator.Model.Cluster.{make_cluster}
use atlas_simulator.Model.Workload.{default_resources, WorkloadGenerator}
use atlas_simulator.Sched.Factory.{
  scheduler_names, make_scheduler, queue_policy_names, make_queue_policy,
}
use atlas_simulator.Metrics.Load.{LoadFactor, offered_load}
use atlas_simulator.Metrics.Samples.Times.{wait_of}
use atlas_simulator.Metrics.Percentiles.{NthElement}
use atlas_simulator.Metrics.Percentiles.Nearest.{IsPercentile, percentiles-HasPercentiles}
use atlas_simulator.Engine.Simulator.{Simulator, make_simulator, run}
use atlas_simulator.Engine.Simulator.Complete.{length-map}
use atlas_simulator.Engine.Simulator.Punctual.{wait_and_service}
use atlas_simulator.Engine.Simulator.Readings.{utilized, run-Readings}
use atlas_simulator.Io.Options.{Options}
use atlas_simulator.Io.Report.Lines.{map_full}
use atlas_simulator.Io.Compare.{RunResult, labels_of, configs, p95_or_zero, run_config}
use atlas_simulator.Program.Simulate.{
  CanSimulate, CanReport, workload, workload_lem, simulated, measured, made-IsReady,
}

-- The label of a configuration, from the names that its run looks up.
label_of :
    (queue queue' sched sched' : String)
    → some queue ≡ some queue'
    → some sched ≡ some sched'
    → some (queue <> ("/" <> sched)) ≡ some (queue' <> ("/" <> sched'))
label_of queue queue' sched sched' q s = cc

label_at :
    (i : ℕ) (queue_name sched_name : String)
    → i < configs
    → get_elem? queue_policy_names (i / length scheduler_names) ≡ some queue_name
    → get_elem? scheduler_names (i % length scheduler_names) ≡ some sched_name
    → get_elem? (labels_of queue_policy_names) i ≡ some (queue_name <> ("/" <> sched_name))
label_at zero queue_name sched_name lt q s = label_of _ queue_name _ sched_name q s
label_at (suc zero) queue_name sched_name lt q s = label_of _ queue_name _ sched_name q s
label_at (suc (suc zero)) queue_name sched_name lt q s = label_of _ queue_name _ sched_name q s
label_at (suc (suc (suc zero))) queue_name sched_name lt q s =
    label_of _ queue_name _ sched_name q s
label_at (suc (suc (suc (suc zero)))) queue_name sched_name lt q s =
    label_of _ queue_name _ sched_name q s
label_at (suc (suc (suc (suc (suc zero))))) queue_name sched_name lt q s =
    label_of _ queue_name _ sched_name q s
label_at (suc (suc (suc (suc (suc (suc zero)))))) queue_name sched_name lt q s =
    label_of _ queue_name _ sched_name q s
label_at (suc (suc (suc (suc (suc (suc (suc zero))))))) queue_name sched_name lt q s =
    label_of _ queue_name _ sched_name q s
label_at (suc (suc (suc (suc (suc (suc (suc (suc i)))))))) queue_name sched_name lt q s =
    absurd (omega arith)

p95_or_zero_lem :
    (nth : NthElement) (xs : List ℕ)
    → xs ≢ []
    → length xs * 100 + 99 < u64_mod
    → (v : ℕ) × (p95_or_zero nth xs ≡ some v) × IsPercentile 95 v xs
unfolding p95_or_zero
p95_or_zero_lem nth [] full small = absurd (full refl)
p95_or_zero_lem nth (x ∷ xs) full small =
    let p = percentiles-HasPercentiles nth (x ∷ xs) full small in
    (p.found.p95, rw p.result refl, p.p95_right)

module _ {W E : Type 0} (d : Doubles W) (g : Engine E) (nth : NthElement) (opt : Options W) where
  -- The run of a configuration on a seed, to its end, by the scheduler and the queue policy that
  -- its label names.
  pub record RunsOn (seed i : ℕ) (r : Option (RunResult W × Simulator)) : Type 0 where
    pub jobs : List Job
    pub generator : WorkloadGenerator W E
    pub drawn : workload d g opt seed ≡ some (jobs, generator)
    pub number : length jobs ≡ opt.jobs
    pub cell : RunResult W
    pub sim : Simulator
    pub result : r ≡ some (cell, sim)
    pub queue_name : String
    pub sched_name : String
    pub labelled :
        get_elem? (labels_of queue_policy_names) i ≡ some (queue_name <> ("/" <> sched_name))
    pub ran :
        run (
          make_simulator
            (make_cluster opt.nodes default_resources)
            jobs
            none
            (make_scheduler sched_name)
            (make_queue_policy queue_name))
        ≡ some sim
    pub load : LoadFactor W
    pub offered : offered_load d sim.jobs sim.cluster ≡ some load
    pub turnaround : IsPercentile 95 cell.p95_turnaround (map wait_and_service sim.jobs)
    pub queue_wait : IsPercentile 95 cell.p95_queue_wait (map wait_of sim.jobs)
    pub utilization :
        cell.utilization
        ≡ utilized d (make_cluster opt.nodes default_resources) jobs sim.sim_end_time
    pub none_censored : cell.censored ≡ 0

  -- A configuration on a seed. Let doubles round as IEEE 754 says, the options be acceptable, no
  -- double that is drawn exceed the bound, the estimates fit in 63 bits, the clock have room for all
  -- jobs, the cores of the cluster fit in 32 bits, and the jobs that are drawn from the seed have
  -- some service time, with room in 64 bits for the cluster's memory times the time by which they
  -- must be done. Then its run, by the queue policy and the scheduler that the label with the
  -- configuration's index names, comes back with no assertion failed and as many jobs as were asked
  -- for. Its cell holds nearest-rank 95th percentiles of the jobs' waits plus
  -- service times and of their waits, and as utilization all requests times service times divided
  -- by the total capacity times the end, and counts no job as censored.
  pub run_config-RunsOn :
      (bound seed i : ℕ)
      → CanSimulate d g opt bound
      → CanReport d g opt seed
      → i < configs
      → RunsOn seed i (run_config d g nth opt seed i)
  unfolding run_config
  run_config-RunsOn bound seed i c r lt =
      let (queue_name, queue_at) =
        get_elem?-in queue_policy_names (i / length scheduler_names) (omega arith) in
      let (sched_name, sched_at) =
        get_elem?-in scheduler_names (i % length scheduler_names) (omega arith) in
      let scheduler = make_scheduler sched_name in
      let v =
        simulated d g opt bound seed scheduler c (λ s e. made-IsReady sched_name s opt.nodes e) in
      let (last, can) = measured d g opt bound seed scheduler c r v in
      let jobs = v.generated.jobs in
      let read =
        run-Readings d (make_cluster opt.nodes default_resources) jobs none scheduler
          (make_queue_policy queue_name) v.runs last can in
      let sim = read.final in
      let some_jobs : 0 < length sim.jobs =
        omega (arith, read.number, v.generated.number, c.accepted.some_jobs) in
      let p95 : (f : Job → ℕ)
          → (x : ℕ) × (p95_or_zero nth (map f sim.jobs) ≡ some x)
            × IsPercentile 95 x (map f sim.jobs) =
        λ f.
          p95_or_zero_lem nth (map f sim.jobs) (map_full f sim.jobs some_jobs)
            (omega (arith, length-map f sim.jobs, read.number, v.runs.few)) in
      let (turned, turn_at, turn_right) = p95 wait_and_service in
      let (waited, wait_at, wait_right) = p95 wait_of in
      rw (queue_at, ◌>>=◌)
        (rw (sched_at, ◌>>=◌)
          (rw (v.starts, ◌>>=◌)
            (rw (v.generated.result, ◌>>=◌)
              (rw (read.result, ◌>>=◌)
                (rw (read.turnarounds, turn_at, ◌>>=◌)
                  (rw (read.waits, wait_at, ◌>>=◌)
                    (rw (read.utilization, ◌>>=◌)
                      (record {
                        jobs = jobs;
                        generator = v.generated.generator;
                        drawn = workload_lem d g opt bound seed scheduler v;
                        number = v.generated.number;
                        cell = _;
                        sim = sim;
                        result = refl;
                        queue_name = queue_name;
                        sched_name = sched_name;
                        labelled = label_at i queue_name sched_name lt queue_at sched_at;
                        ran = read.result;
                        load = read.load;
                        offered = read.offered;
                        turnaround = turn_right;
                        queue_wait = wait_right;
                        utilization = refl;
                        none_censored = read.none_skipped;
                      }))))))))
