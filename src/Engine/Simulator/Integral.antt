-- ===== src/Engine/Simulator/Integral.antt =====
-- What the utilization integral of src/atlas/engine/simulator.cpp holds at the end of a run.
use atlas_simulator.Prelude.{
  ℕ, suc, ◌<◌, ◌≡◌, refl, ap, sym, subst, ◌∙◌, List, [], ◌∷◌, Option, some, arith, All, get_elem?,
  map, u64_mod,
}
use atlas_simulator.Model.Types.{Resources, Job, queued, done}
use atlas_simulator.Model.Cluster.{Cluster}
use atlas_simulator.Model.Cluster.Sums.{IsSummable}
use atlas_simulator.Metrics.Utilization.{UtilizationIntegral}
use atlas_simulator.Metrics.Utilization.Steps.{advance_still}
use atlas_simulator.Sched.Place.{Scheduler}
use atlas_simulator.Sched.Queue.{QueuePolicy}
use atlas_simulator.Io.Trace.{TraceWriter}
use atlas_simulator.Engine.Board.{cores_in, memory_in}
use atlas_simulator.Engine.Simulator.{Simulator, make_simulator, seed, run}
use atlas_simulator.Engine.Simulator.Boards.{spec_of}
use atlas_simulator.Engine.Simulator.Spent.{given, used_by, spent}
use atlas_simulator.Engine.Simulator.Seed.{CanRun}
use atlas_simulator.Engine.Simulator.Arrivals.{seed_lem}
use atlas_simulator.Engine.Simulator.Outcome.{run-Ran}
use atlas_simulator.Engine.Simulator.Complete.{EachFitsAlone, run-Completes}
use atlas_simulator.Engine.Simulator.Metering.{
  work_of, work, work_same, spent_bound, IsMetered, IsCountable, advance-spent, Reached-IsMetered,
}

all_given :
    (g : Resources → ℕ) (now : ℕ) (jobs : List Job)
    → ((id : ℕ) (j : Job) → get_elem? jobs id ≡ some j → j.state ≡ done)
    → spent g now jobs ≡ work g jobs
all_given g now [] h = refl
all_given g now (j ∷ js) h =
    let rest = all_given g now js (λ id x at. h (suc id) x at) in
    let here : used_by g now j ≡ work_of g j =
      ap (λ state. given state now j.start_time j.duration (g j.request)) (h 0 j refl) in
    omega (arith, rest, here)

none_given :
    (g : Resources → ℕ) (jobs : List Job) → All (λ j. j.state ≡ queued) jobs → spent g 0 jobs ≡ 0
none_given g [] h = refl
none_given g (j ∷ js) h =
    let here : used_by g 0 j ≡ 0 =
      ap (λ state. given state 0 j.start_time j.duration (g j.request)) h.0 in
    omega (arith, here, none_given g js h.1)

-- The integral of a run in which every job is done.
pub record HasIntegral (jobs : List Job) (r : Option Simulator) : Type 0 where
  pub final : Simulator
  pub result : r ≡ some final
  pub until_end : final.util.last_checkin ≡ final.sim_end_time
  pub core_ticks : final.util.core_ticks ≡ work cores_in jobs
  pub memory_ticks : final.util.memory_ticks ≡ work memory_in jobs

module _ (cluster : Cluster) (jobs : List Job) (trace : Option TraceWriter)
    (scheduler : Option Scheduler) (policy : Option QueuePolicy)
    (h : CanRun cluster jobs scheduler) where
  abbrev seeded : Simulator
  seeded = seed jobs (make_simulator cluster jobs trace scheduler policy)

  seeded-IsMetered : IsMetered seeded
  unfolding make_simulator
  seeded-IsMetered =
      rw (seed_lem jobs (make_simulator cluster jobs trace scheduler policy)) (record {
        last = refl;
        cores = sym (none_given cores_in jobs h.all_queued);
        memory = sym (none_given memory_in jobs h.all_queued);
      })

  seeded-IsCountable :
      IsSummable cluster
      → work cores_in jobs < u64_mod
      → work memory_in jobs < u64_mod
      → IsCountable seeded
  unfolding make_simulator
  seeded-IsCountable fits cores memory =
      rw (seed_lem jobs (make_simulator cluster jobs trace scheduler policy))
        (record { summable = fits; cores_fit = cores; memory_fit = memory })

  -- A simulator that is built from an unused cluster and at least one queued job, both numbered
  -- from 0 on, with any placement policy, queue policy and trace, and with room on the clock for
  -- the service time of all jobs after the last arrival: if each job's request is within the
  -- capacity of some node, the total capacity fits its types, and the jobs' requests times their
  -- service times sum to less than 2^64, then `run` comes back, and its integral stands at the end
  -- of the run and holds exactly those two sums, whatever the order in which the jobs ran.
  pub run-HasIntegral :
      EachFitsAlone cluster jobs
      → IsSummable cluster
      → work cores_in jobs < u64_mod
      → work memory_in jobs < u64_mod
      → HasIntegral jobs (run (make_simulator cluster jobs trace scheduler policy))
  unfolding make_simulator
  run-HasIntegral each fits cores memory =
      let ran = run-Ran cluster jobs trace scheduler policy h in
      let t = ran.idle in
      let e = ran.ended in
      let v = ran.is_idle.inv in
      let (countable, m) =
        Reached-IsMetered t seeded ran.path (seeded-IsCountable fits cores memory)
          seeded-IsMetered in
      let (last, c, d) =
        advance-spent t t.pending t.now e.before v countable.summable m (omega arith)
          (omega (arith, v.clock.room))
          (omega (arith, spent_bound cores_in t t.pending v, countable.cores_fit))
          (omega (arith, spent_bound memory_in t t.pending v, countable.memory_fit)) e.advanced in
      let still = advance_still e.before ran.final.util t.now _ last e.advanced_again in
      let done_all = run-Completes cluster jobs trace scheduler policy h each in
      let same : done_all.final ≡ ran.final = cc (done_all.result, ran.result) in
      let all_done =
        subst (λ js. (id : ℕ) (j : Job) → get_elem? js id ≡ some j → j.state ≡ done)
          (ap (λ (s : Simulator). s.jobs) same ∙ e.jobs) done_all.all_done in
      let specs : map spec_of t.jobs ≡ map spec_of jobs =
        sym (ap (λ js. map spec_of js) (ap (λ (s : Simulator). s.jobs) same ∙ e.jobs))
        ∙ done_all.specs in
      let total : (g : Resources → ℕ) → spent g t.now t.jobs ≡ work g jobs =
        λ g. all_given g t.now t.jobs all_done ∙ work_same g t.jobs jobs specs in
      record {
        final = ran.final;
        result = ran.result;
        until_end = e.checked ∙ sym e.end_time;
        core_ticks = ap (λ (u : UtilizationIntegral). u.core_ticks) still ∙ (c ∙ total cores_in);
        memory_ticks =
            ap (λ (u : UtilizationIntegral). u.memory_ticks) still ∙ (d ∙ total memory_in);
      }
