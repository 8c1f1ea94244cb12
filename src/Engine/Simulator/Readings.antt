-- ===== src/Engine/Simulator/Readings.antt =====
-- What the metrics read off a finished run of src/atlas/engine/simulator.cpp.
use atlas_simulator.Prelude.{
  ℕ, zero, suc, ◌+◌, ◌*◌, ◌≤◌, ◌<◌, ◌≡◌, refl, ap, sym, subst, ◌∙◌, inl, inr, List, [], ◌∷◌, Option,
  some, arith, All, sum_of, get_elem?, length, map, lt→ltb, u64_mod, List-cases,
}
use atlas_simulator.Doubles.{Doubles}
use atlas_simulator.Model.Types.{Resources, Node, Job, never}
use atlas_simulator.Model.Cluster.{Cluster}
use atlas_simulator.Model.Cluster.Sums.{IsSummable, total_capacity_exact}
use atlas_simulator.Metrics.Load.{LoadFactor, offered_load}
use atlas_simulator.Metrics.Load.Mean.{mean_exact, offered_load_total}
use atlas_simulator.Metrics.Samples.{turnaround_times, queue_wait_times}
use atlas_simulator.Metrics.Samples.Times.{wait_of, queue_wait_times_exact}
use atlas_simulator.Sched.Place.{Scheduler}
use atlas_simulator.Sched.Queue.{QueuePolicy}
use atlas_simulator.Io.Trace.{TraceWriter}
use atlas_simulator.Engine.Board.{cores_in, memory_in}
use atlas_simulator.Engine.Simulator.{Simulator, make_simulator, run}
use atlas_simulator.Engine.Simulator.Mean.{mean_utilization}
use atlas_simulator.Engine.Simulator.Boards.{spec_of}
use atlas_simulator.Engine.Simulator.Seed.{CanRun}
use atlas_simulator.Engine.Simulator.Outcome.{run-Outcome}
use atlas_simulator.Engine.Simulator.Complete.{EachFitsAlone, run-Completes, length-map}
use atlas_simulator.Engine.Simulator.Punctual.{
  run-IsOnTime, IsServed, run-HasTurnarounds, wait_and_service,
}
use atlas_simulator.Engine.Simulator.Metering.{work, IsSummable-Same, capacity_lem}
use atlas_simulator.Engine.Simulator.Integral.{run-HasIntegral}
use atlas_simulator.Engine.Simulator.Course.{durations, run-StopsBy}

abbrev pub capacity_sum : (Resources → ℕ) → Cluster → ℕ
capacity_sum g cluster = sum_of (λ (n : Node). g n.capacity) cluster.nodes

-- A run whose metrics can be read: every job fits on a node, there is work and capacity of both
-- kinds, and nothing that is summed or multiplied wraps around by the latest possible end.
pub record CanMeasure (cluster : Cluster) (jobs : List Job) (last : ℕ) : Type 0 where
  pub each : EachFitsAlone cluster jobs
  pub submitted : All (λ (j : Job). j.submit_time ≤ last) jobs
  pub some_work : 0 < durations jobs
  pub early : last + durations jobs < never
  pub summable : IsSummable cluster
  pub some_cores : 0 < capacity_sum cores_in cluster
  pub some_memory : 0 < capacity_sum memory_in cluster
  pub core_span : (last + durations jobs) * capacity_sum cores_in cluster < u64_mod
  pub memory_span : (last + durations jobs) * capacity_sum memory_in cluster < u64_mod
  pub cores_fit : work cores_in jobs < u64_mod
  pub memory_fit : work memory_in jobs < u64_mod

-- All work over all capacity by the end.
abbrev pub utilized : {W : Type 0} → Doubles W → Cluster → List Job → ℕ → LoadFactor W
utilized d cluster jobs time = record {
  cores = d.div (d.of_nat (work cores_in jobs)) (d.of_nat (time * capacity_sum cores_in cluster));
  memory =
      d.div (d.of_nat (work memory_in jobs)) (d.of_nat (time * capacity_sum memory_in cluster));
}

pub record Readings {W : Type 0} (d : Doubles W) (cluster : Cluster) (jobs : List Job)
    (r : Option Simulator) : Type 0 where
  pub final : Simulator
  pub result : r ≡ some final
  pub at_end : final.sim_end_time ≡ final.now
  pub number : length final.jobs ≡ length jobs
  pub none_skipped : (turnaround_times final.jobs).skipped ≡ 0
  pub turnarounds : (turnaround_times final.jobs).times ≡ map wait_and_service final.jobs
  pub no_wait_skipped : (queue_wait_times final.jobs).skipped ≡ 0
  pub waits : (queue_wait_times final.jobs).times ≡ map wait_of final.jobs
  pub load : LoadFactor W
  pub offered : offered_load d final.jobs final.cluster ≡ some load
  pub utilization : mean_utilization d final ≡ some (utilized d cluster jobs final.sim_end_time)

-- Durations that are all 0 sum to 0.
no_work :
    (jobs : List Job)
    → ((id : ℕ) (j : Job) → get_elem? jobs id ≡ some j → j.duration ≤ 0)
    → durations jobs ≡ 0
no_work [] h = refl
no_work (j ∷ js) h = omega (arith, h 0 j refl, no_work js (λ id x at. h (suc id) x at))

-- A time that no duration exceeds is positive if there is work.
work_lem :
    (time : ℕ) (jobs : List Job)
    → ((id : ℕ) (j : Job) → get_elem? jobs id ≡ some j → j.duration ≤ time)
    → 0 < durations jobs
    → 0 < time
work_lem zero jobs h some_work = omega (arith, no_work jobs h)
work_lem (suc n) jobs h some_work = omega arith

durations_lem :
    (jobs : List Job) → durations jobs ≡ sum_of (λ (j : Job). j.duration) (map spec_of jobs)
durations_lem [] = refl
durations_lem (j ∷ js) = ap (λ x. j.duration + x) (durations_lem js)

one_final : {r : Option Simulator} (s t : Simulator) → r ≡ some s → r ≡ some t → s ≡ t
one_final s t e f = cc

times_le : (a b c : ℕ) → a ≤ b → b * c < u64_mod → a * c < u64_mod
times_le a b c le h = grind (arith, le)

module _ {W : Type 0} (d : Doubles W) (cluster : Cluster) (jobs : List Job)
    (trace : Option TraceWriter) (scheduler : Option Scheduler) (policy : Option QueuePolicy)
    (h : CanRun cluster jobs scheduler) where
  abbrev final : Simulator
  final = (run-Outcome cluster jobs trace scheduler policy h).final

  is_final :
      (t : Simulator)
      → run (make_simulator cluster jobs trace scheduler policy) ≡ some t
      → t ≡ final
  is_final t e = one_final t final e (run-Outcome cluster jobs trace scheduler policy h).result

  served :
      EachFitsAlone cluster jobs
      → (id : ℕ) (j : Job) → get_elem? final.jobs id ≡ some j
      → IsServed final.sim_end_time j
  served each id j at =
      let p = run-IsOnTime cluster jobs trace scheduler policy h in
      let f = run-Completes cluster jobs trace scheduler policy h each in
      let found : (t : Simulator) → t ≡ final → get_elem? t.jobs id ≡ some j =
        λ t e. ap (λ (x : Simulator). get_elem? x.jobs id) e ∙ at in
      let same = is_final p.final p.result in
      subst (λ (t : Simulator). IsServed t.sim_end_time j) same
        (p.served id j (found p.final same)
          (f.all_done id j (found f.final (is_final f.final f.result))))

  -- The latest possible end bounds the end of the run.
  ends_by :
      (last : ℕ)
      → All (λ (j : Job). j.submit_time ≤ last) jobs
      → final.sim_end_time ≤ last + durations jobs
  ends_by last submitted =
      let b = run-StopsBy cluster jobs trace scheduler policy h last submitted in
      subst (λ (t : Simulator). t.sim_end_time ≤ last + durations jobs) (is_final b.final b.result)
        b.by_then

  ends_later : EachFitsAlone cluster jobs → 0 < durations jobs → 0 < final.sim_end_time
  unfolding make_simulator
  ends_later each some_work =
      let o = run-Outcome cluster jobs trace scheduler policy h in
      work_lem final.sim_end_time final.jobs
        (λ id j at. let v = served each id j at in omega (arith, v.in_full, v.by_end))
        (subst (λ n. 0 < n)
          (durations_lem jobs
            ∙ (ap (sum_of λ (j : Job). j.duration) (sym o.same.specs)
                ∙ sym (durations_lem final.jobs)))
          some_work)

  number : length final.jobs ≡ length jobs
  unfolding make_simulator
  number =
      let o = run-Outcome cluster jobs trace scheduler policy h in
      sym (length-map spec_of final.jobs) ∙ (ap length o.same.specs ∙ length-map spec_of jobs)

  read_utilization :
      (last : ℕ)
      → CanMeasure cluster jobs last
      → mean_utilization d final ≡ some (utilized d cluster jobs final.sim_end_time)
  unfolding mean_utilization make_simulator
  read_utilization last c =
      let o = run-Outcome cluster jobs trace scheduler policy h in
      let v =
        run-HasIntegral cluster jobs trace scheduler policy h c.each c.summable c.cores_fit
          c.memory_fit in
      let by_then = ends_by last c.submitted in
      let sums : (g : Resources → ℕ) → capacity_sum g final.cluster ≡ capacity_sum g cluster = λ g.
        capacity_lem g final.cluster.nodes
        ∙ ap (sum_of g) o.same.capacities
        ∙ sym (capacity_lem g cluster.nodes) in
      let same = is_final v.final v.result in
      let cores : final.util.core_ticks ≡ work cores_in jobs =
        ap (λ (t : Simulator). t.util.core_ticks) (sym same) ∙ v.core_ticks in
      let memory : final.util.memory_ticks ≡ work memory_in jobs =
        ap (λ (t : Simulator). t.util.memory_ticks) (sym same) ∙ v.memory_ticks in
      rw
        (
          lt→ltb final.sim_end_time never (omega (arith, by_then, c.early)),
          total_capacity_exact final.cluster
              (IsSummable-Same cluster final.cluster o.same.capacities c.summable),
          sums cores_in,
          sums memory_in,
        )
        (mean_exact d final.util final.sim_end_time _ (ends_later c.each c.some_work)
            (omega (arith, by_then, c.early)) c.some_cores c.some_memory
            (times_le _ _ _ by_then c.core_span) (times_le _ _ _ by_then c.memory_span)
          ∙ rw (cores, memory) refl)

  -- A simulator that is built from an unused cluster and at least one queued job, both numbered
  -- from 0 on, with any placement policy, queue policy and trace, and with room on the clock for the
  -- service time of all jobs after the last arrival. Let each job's request be within the capacity
  -- of some node, the jobs have some service time and the cluster some of both resources, the
  -- total capacity fit its types, the time from 0 to the last submission plus the service time of
  -- all jobs end before the greatest tick and be less than 2^64 when multiplied by the total
  -- capacity, and the jobs' requests times their service times sum to less than 2^64. Then `run`
  -- comes back with as many jobs as before, `turnaround_times` skips none and holds each job's
  -- wait plus its service time, `queue_wait_times` skips none and holds each job's wait, and no assertion of `offered_load` and `mean_utilization` fails:
  -- the latter divides all requests times service times by the total capacity times the end.
  pub run-Readings :
      (last : ℕ)
      → CanMeasure cluster jobs last
      → Readings d cluster jobs (run (make_simulator cluster jobs trace scheduler policy))
  run-Readings last c =
      let o = run-Outcome cluster jobs trace scheduler policy h in
      let m = run-HasTurnarounds cluster jobs trace scheduler policy h c.each in
      let same = is_final m.final m.result in
      let some_jobs : 0 < length final.jobs = elim (List-cases jobs) [
        | inl e ↦ absurd (h.some_jobs e)
        | inr (j, js, e) ↦ omega (arith, number, ap length e)
      ] in
      let waits = queue_wait_times_exact final.jobs λ id j at.
        let v = served c.each id j at in
        (
          v.submitted_first,
          omega (arith, v.in_full, v.by_end, ends_by last c.submitted, c.early),
        ) in
      let (load, offered) = offered_load_total d final.jobs final.cluster some_jobs in
      record {
        final = final;
        result = o.result;
        at_end = o.ends_now;
        number = number;
        none_skipped =
            subst (λ (t : Simulator). (turnaround_times t.jobs).skipped ≡ 0) same m.none_skipped;
        turnarounds =
            subst (λ (t : Simulator). (turnaround_times t.jobs).times ≡ map wait_and_service t.jobs)
              same m.times;
        no_wait_skipped = waits.0;
        waits = waits.1;
        load = load;
        offered = offered;
        utilization = read_utilization last c;
      }
