-- ===== src/Engine/Simulator/Spent.antt =====
-- The resources times ticks that the jobs of src/atlas/engine/simulator.hpp have been given so far.
use atlas_simulator.Prelude.{
  ℕ, suc, ◌+◌, ◌-◌, ◌*◌, ◌≤◌, ◌≡◌, refl, ap, ◌∙◌, List, [], ◌∷◌, some, arith, sum_of, sum_of-set,
  get_elem?, set,
}
use atlas_simulator.Model.Types.{Resources, Job, JobState, queued, running as is_on_node, done}
use atlas_simulator.Engine.Simulator.{start_job}
use atlas_simulator.Engine.Simulator.Ledger.{running_one}

-- What one job has been given by the time `now`.
abbrev pub given : JobState → ℕ → ℕ → ℕ → ℕ → ℕ
given queued now start duration amount = 0
given is_on_node now start duration amount = amount * (now - start)
given done now start duration amount = amount * duration

abbrev pub used_by : (Resources → ℕ) → ℕ → Job → ℕ
used_by g now j = given j.state now j.start_time j.duration (g j.request)

abbrev pub spent : (Resources → ℕ) → ℕ → List Job → ℕ
spent g now = sum_of (used_by g now)

given_queued :
    (state : JobState) (now start duration amount : ℕ)
    → state ≡ queued
    → given state now start duration amount ≡ 0
given_queued queued now start duration amount e = refl
given_queued is_on_node now start duration amount e = absurd (cc (e))
given_queued done now start duration amount e = absurd (cc (e))

given_running :
    (state : JobState) (now start duration amount : ℕ)
    → state ≡ is_on_node
    → given state now start duration amount ≡ amount * (now - start)
given_running queued now start duration amount e = absurd (cc (e))
given_running is_on_node now start duration amount e = refl
given_running done now start duration amount e = absurd (cc (e))

-- A start leaves the sum as it is, and so does a finish at the end of the service.
pub spent-start :
    (g : Resources → ℕ) (now node : ℕ) (jobs : List Job) (id : ℕ) (j : Job)
    → get_elem? jobs id ≡ some j
    → j.state ≡ queued
    → spent g now (set jobs id (start_job j now node)) ≡ spent g now jobs
spent-start g now node jobs id j at waits =
    let none_yet : now - now ≡ 0 = omega arith in
    let starts : g j.request * (now - now) ≡ 0 = ap (λ x. g j.request * x) none_yet ∙ omega arith in
    omega (
      arith,
      sum_of-set (used_by g now) jobs id j (start_job j now node) at,
      starts,
      given_queued j.state now j.start_time j.duration (g j.request) waits,
    )

pub spent-finish :
    (g : Resources → ℕ) (now : ℕ) (jobs : List Job) (id : ℕ) (j : Job)
    → get_elem? jobs id ≡ some j
    → j.state ≡ is_on_node
    → now ≡ j.start_time + j.duration
    → spent g now (set jobs id (record j { finish_time = now; state = done })) ≡ spent g now jobs
spent-finish g now jobs id j at runs ends =
    let served : now - j.start_time ≡ j.duration = omega arith in
    omega (
      arith,
      sum_of-set (used_by g now) jobs id j (record j { finish_time = now; state = done }) at,
      given_running j.state now j.start_time j.duration (g j.request) runs,
      ap (λ x. g j.request * x) served,
    )

-- What the running jobs were given more, by a later time.
given_later :
    (j : Job) (state : JobState) (now now' amount : ℕ)
    → j.state ≡ state
    → now ≤ now'
    → (state ≡ is_on_node → j.start_time ≤ now)
    → given state now' j.start_time j.duration amount
      ≡ given state now j.start_time j.duration amount + (now' - now) * (running_one j * amount)
given_later j queued now now' amount e le started = rw e (omega arith)
given_later j is_on_node now now' amount e le started =
    let before = started refl in rw e (grind (arith, before))
given_later j done now now' amount e le started = rw e (omega arith)

pub spent_later :
    (g : Resources → ℕ) (now now' : ℕ) (jobs : List Job)
    → now ≤ now'
    → ((id : ℕ) (j : Job) → get_elem? jobs id ≡ some j → j.state ≡ is_on_node → j.start_time ≤ now)
    → spent g now' jobs
      ≡ spent g now jobs + (now' - now) * sum_of (λ j. running_one j * g j.request) jobs
spent_later g now now' [] le started = omega arith
spent_later g now now' (j ∷ js) le started =
    let rest = spent_later g now now' js le (λ id x at. started (suc id) x at) in
    let here = given_later j j.state now now' (g j.request) refl le (started 0 j refl) in
    grind (arith, rest, here)
