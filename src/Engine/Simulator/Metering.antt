-- ===== src/Engine/Simulator/Metering.antt =====
-- The utilization integral over a run of src/atlas/engine/simulator.cpp.
use atlas_simulator.Prelude.{
  ℕ, suc, ◌+◌, ◌-◌, ◌*◌, ◌≤◌, ◌<◌, ◌≡◌, refl, ap, sym, ◌∙◌, List, [], ◌∷◌, some, arith, sum_of,
  get_elem?, map, u64_mod,
}
use atlas_simulator.Model.Types.{
  Resources, Node, Job, JobState, queued, running as is_on_node, done,
}
use atlas_simulator.Model.Cluster.{Cluster, total_utilized}
use atlas_simulator.Model.Cluster.Sums.{IsSummable}
use atlas_simulator.Metrics.Utilization.{UtilizationIntegral, advance}
use atlas_simulator.Metrics.Utilization.Steps.{advance_exact}
use atlas_simulator.Engine.Board.{cores_in, memory_in}
use atlas_simulator.Engine.Simulator.{Simulator}
use atlas_simulator.Engine.Simulator.Ledger.{JobTimes, Phase, cores_of, memory_of}
use atlas_simulator.Engine.Simulator.Invariant.{Inv, Same}
use atlas_simulator.Engine.Simulator.Boards.{spec_of, capacity_of}
use atlas_simulator.Engine.Simulator.Times.{within}
use atlas_simulator.Engine.Simulator.Spent.{given, used_by, spent, spent_later}
use atlas_simulator.Engine.Simulator.Held.{held_by}
use atlas_simulator.Engine.Simulator.Usage.{total_utilized-held}
use atlas_simulator.Engine.Simulator.Run.{Advances}
use atlas_simulator.Engine.Simulator.Loop.{Reached, arrived, round}

-- What a job asks for, times its service time.
abbrev pub work_of : (Resources → ℕ) → Job → ℕ
work_of g j = g j.request * j.duration

abbrev pub work : (Resources → ℕ) → List Job → ℕ
work g = sum_of (work_of g)

work_lem :
    (g : Resources → ℕ) (jobs : List Job) → work g jobs ≡ sum_of (work_of g) (map spec_of jobs)
work_lem g [] = refl
work_lem g (j ∷ js) = ap (λ x. work_of g j + x) (work_lem g js)

pub work_same :
    (g : Resources → ℕ) (xs ys : List Job) → map spec_of xs ≡ map spec_of ys → work g xs ≡ work g ys
work_same g xs ys e = work_lem g xs ∙ ap (sum_of (work_of g)) e ∙ sym (work_lem g ys)

pub capacity_lem :
    (g : Resources → ℕ) (ns : List Node)
    → sum_of (λ n. g n.capacity) ns ≡ sum_of g (map capacity_of ns)
capacity_lem g [] = refl
capacity_lem g (n ∷ ns) = ap (λ x. g n.capacity + x) (capacity_lem g ns)

pub IsSummable-Same :
    (c d : Cluster)
    → map capacity_of d.nodes ≡ map capacity_of c.nodes
    → IsSummable c
    → IsSummable d
IsSummable-Same c d e v =
    let sums : (g : Resources → ℕ)
        → sum_of (λ (n : Node). g n.capacity) d.nodes
          ≡ sum_of (λ (n : Node). g n.capacity) c.nodes =
      λ g. capacity_lem g d.nodes ∙ ap (sum_of g) e ∙ sym (capacity_lem g c.nodes) in
    record {
      cores_sum = omega (arith, v.cores_sum, sums cores_in);
      memory_sum = omega (arith, v.memory_sum, sums memory_in);
    }

given_bound :
    (state : JobState) (a w o f now start duration amount : ℕ)
    → Phase state a w o f
    → (0 < f → now ≤ start + duration)
    → given state now start duration amount ≤ amount * duration
given_bound queued a w o f now start duration amount p h = omega arith
given_bound is_on_node a w o f now start duration amount p h =
    let le : now - start ≤ duration = omega (arith, h (omega arith)) in grind (arith, le)
given_bound done a w o f now start duration amount p h = omega arith

sum_of-le :
    {A : Type 0} (f g : A → ℕ) (xs : List A)
    → ((i : ℕ) (x : A) → get_elem? xs i ≡ some x → f x ≤ g x)
    → sum_of f xs ≤ sum_of g xs
sum_of-le f g [] h = omega arith
sum_of-le f g (x ∷ xs) h = omega (arith, h 0 x refl, sum_of-le f g xs (λ i y at. h (suc i) y at))

pub spent_bound :
    (g : Resources → ℕ) (s : Simulator) (pend : List ℕ)
    → Inv s pend
    → spent g s.now s.jobs ≤ work g s.jobs
spent_bound g s pend v = sum_of-le (used_by g s.now) (work_of g) s.jobs (λ id j at.
    given_bound j.state _ _ _ _ s.now j.start_time j.duration (g j.request)
      (v.counts.phases id j at)
      (within s.now s.jobs id j s.queue.heap at v.clock.to_come v.clock.times.events_timed))

-- The integral stands at the clock, and holds what the jobs have been given.
pub record IsMetered (s : Simulator) : Type 0 where
  pub last : s.util.last_checkin ≡ s.now
  pub cores : s.util.core_ticks ≡ spent cores_in s.now s.jobs
  pub memory : s.util.memory_ticks ≡ spent memory_in s.now s.jobs

-- All the work that there is fits the counters, and the capacity its types.
pub record IsCountable (s : Simulator) : Type 0 where
  pub summable : IsSummable s.cluster
  pub cores_fit : work cores_in s.jobs < u64_mod
  pub memory_fit : work memory_in s.jobs < u64_mod

IsCountable-Same : (s t : Simulator) → Same s t → IsCountable s → IsCountable t
IsCountable-Same s t same v = record {
  summable = IsSummable-Same s.cluster t.cluster same.capacities v.summable;
  cores_fit = omega (arith, v.cores_fit, work_same cores_in t.jobs s.jobs same.specs);
  memory_fit = omega (arith, v.memory_fit, work_same memory_in t.jobs s.jobs same.specs);
}

JobTimes-started :
    (state : JobState) (a now : ℕ) (j : Job)
    → state ≡ is_on_node
    → JobTimes state a now j
    → j.start_time ≤ now
JobTimes-started queued a now j e h = absurd (cc (e))
JobTimes-started is_on_node a now j e h = h.1
JobTimes-started done a now j e h = absurd (cc (e))

-- An advance to a time before which no running job ends.
pub advance-spent :
    (s : Simulator) (pend : List ℕ) (now : ℕ) (util : UtilizationIntegral)
    → Inv s pend
    → IsSummable s.cluster
    → IsMetered s
    → s.now ≤ now
    → now < u64_mod
    → spent cores_in now s.jobs < u64_mod
    → spent memory_in now s.jobs < u64_mod
    → advance s.util now (total_utilized s.cluster) ≡ some util
    → (util.last_checkin ≡ now)
      × (util.core_ticks ≡ spent cores_in now s.jobs)
      × (util.memory_ticks ≡ spent memory_in now s.jobs)
advance-spent s pend now util v fits m le small cores memory made =
    let held = total_utilized-held s pend v fits in
    let started : (id : ℕ) (j : Job)
        → get_elem? s.jobs id ≡ some j
        → j.state ≡ is_on_node
        → j.start_time ≤ s.now =
      λ id j at runs. JobTimes-started j.state _ s.now j runs (v.clock.times.jobs_timed id j at) in
    let more = spent_later cores_in s.now now s.jobs le started in
    let more' = spent_later memory_in s.now now s.jobs le started in
    let passed : now - s.util.last_checkin ≡ now - s.now = ap (λ t. now - t) m.last in
    let in_use = sum_of (held_by cores_of) s.jobs in
    let in_use' = sum_of (held_by memory_of) s.jobs in
    let c : s.util.core_ticks + (now - s.util.last_checkin) * in_use ≡ spent cores_in now s.jobs =
      omega (arith, m.cores, more, ap (λ t. t * in_use) passed) in
    let d : s.util.memory_ticks + (now - s.util.last_checkin) * in_use'
        ≡ spent memory_in now s.jobs =
      omega (arith, m.memory, more', ap (λ t. t * in_use') passed) in
    let exact =
      advance_exact s.util now (record { cores = in_use; memory_mb = in_use' })
        (omega (arith, m.last)) small (omega (arith, c)) (omega (arith, d)) in
    let same : util ≡ record {
      last_checkin = now;
      core_ticks = s.util.core_ticks + (now - s.util.last_checkin) * in_use;
      memory_ticks = s.util.memory_ticks + (now - s.util.last_checkin) * in_use';
    } =
      cc (made, ap (advance s.util now) held, exact) in
    (
      ap (λ (u : UtilizationIntegral). u.last_checkin) same,
      ap (λ (u : UtilizationIntegral). u.core_ticks) same ∙ c,
      ap (λ (u : UtilizationIntegral). u.memory_ticks) same ∙ d,
    )

round-IsMetered :
    (s next : Simulator)
    → Inv s s.pending
    → Inv next next.pending
    → Same s next
    → Advances s next
    → IsCountable s
    → IsMetered s
    → IsMetered next
round-IsMetered s next v v' same moves fits m =
    let fits' = IsCountable-Same s next same fits in
    let (last, cores, memory) =
      advance-spent s s.pending next.now next.util v fits.summable m moves.later
        (omega (arith, v'.clock.room))
        (omega (
          arith,
          moves.spent_same cores_in,
          spent_bound cores_in next next.pending v',
          fits'.cores_fit,
        ))
        (omega (
          arith,
          moves.spent_same memory_in,
          spent_bound memory_in next next.pending v',
          fits'.memory_fit,
        ))
        moves.metered in
    record {
      last = last;
      cores = cores ∙ sym (moves.spent_same cores_in);
      memory = memory ∙ sym (moves.spent_same memory_in);
    }

Reached-Inv : (s t : Simulator) → Reached t s → Inv s s.pending
Reached-Inv s t (arrived v) = v
Reached-Inv s t (round _ next v same moves path) = v

pub Reached-IsMetered :
    (t s : Simulator) → Reached t s → IsCountable s → IsMetered s → IsCountable t × IsMetered t
Reached-IsMetered t s (arrived v) fits m = (fits, m)
Reached-IsMetered t s (round _ next v same moves path) fits m =
    Reached-IsMetered t next path (IsCountable-Same s next same fits)
      (round-IsMetered s next v (Reached-Inv next t path) same moves fits m)
