-- ===== src/Sched/Queue/Shadow.antt =====
-- `shadow_time` of src/atlas/sched/backfill.cpp against a definition that neither sorts nor stops
-- early: by when enough of a node's running jobs are predicted to have ended.
use atlas_simulator.Prelude.{
  ℕ, ◌+◌, ◌≤◌, ◌<◌, ◌≡◌, refl, ◌∙◌, inl, inr, Bool, false, ◌&&◌, ◌||◌, List, [], ◌∷◌, arith, leb,
  leb→le, ltb, if◌then◌else◌, Bool-cases, All, sum_of, add32_exact, add64_exact, u32_mod, u64_mod,
}
use atlas_simulator.Model.Types.{Resources, Node, can_fit, never}
use atlas_simulator.Sched.Queue.{
  RunningJob, fits, fits_anywhere, finishes_first, insert, sort, jobs_on, hand_back, shadow_loop,
  shadow_time,
}

abbrev pub held_cores : RunningJob → ℕ
held_cores r = r.held.cores

abbrev pub held_memory : RunningJob → ℕ
held_memory r = r.held.memory_mb

-- What a job is predicted to have returned by the time `t`.
abbrev pub cores_by : ℕ → RunningJob → ℕ
cores_by t r = if leb r.estimated_finish t then r.held.cores else 0

abbrev pub memory_by : ℕ → RunningJob → ℕ
memory_by t r = if leb r.estimated_finish t then r.held.memory_mb else 0

-- The request fits in what is free and what these jobs have returned by `t`.
abbrev pub fits_by : Resources → Resources → List RunningJob → ℕ → Bool
fits_by request free rs t =
    leb request.cores (free.cores + sum_of (cores_by t) rs)
    && leb request.memory_mb (free.memory_mb + sum_of (memory_by t) rs)

-- Some node can hold the request by `t`.
abbrev pub some_fits_by : Resources → List Node → List RunningJob → ℕ → Bool
some_fits_by request [] running t = false
some_fits_by request (n ∷ ns) running t =
    fits_by request n.free (jobs_on n.id running) t || some_fits_by request ns running t

-- What is free and what is held on a node are values of their types together.
pub record IsAccounted (free : Resources) (rs : List RunningJob) : Type 0 where
  pub cores_room : free.cores + sum_of held_cores rs < u32_mod
  pub memory_room : free.memory_mb + sum_of held_memory rs < u64_mod

sum_of-insert :
    (f : RunningJob → ℕ) (r : RunningJob) (xs : List RunningJob)
    → sum_of f (insert r xs) ≡ f r + sum_of f xs
unfolding insert
sum_of-insert f r [] = refl
sum_of-insert f r (x ∷ xs) = ground (arith, sum_of-insert f r xs)

sum_of-sort : (f : RunningJob → ℕ) (rs : List RunningJob) → sum_of f (sort rs) ≡ sum_of f rs
unfolding sort
sum_of-sort f [] = refl
sum_of-sort f (r ∷ rs) = omega (arith, sum_of-insert f r (sort rs), sum_of-sort f rs)

-- No job of the list is predicted to end before `t`.
abbrev NotBefore : ℕ → List RunningJob → Type 0
NotBefore t = All (λ r. t ≤ r.estimated_finish)

abbrev Ascending : List RunningJob → Type 0
Ascending [] = Unit
Ascending (r ∷ rs) = NotBefore r.estimated_finish rs × Ascending rs

NotBefore-mono : (s t : ℕ) (rs : List RunningJob) → s ≤ t → NotBefore t rs → NotBefore s rs
NotBefore-mono s t [] le h = tt
NotBefore-mono s t (r ∷ rs) le h = (omega arith, NotBefore-mono s t rs le h.1)

NotBefore-insert :
    (t : ℕ) (r : RunningJob) (xs : List RunningJob)
    → t ≤ r.estimated_finish
    → NotBefore t xs
    → NotBefore t (insert r xs)
unfolding insert
NotBefore-insert t r [] le h = (le, tt)
NotBefore-insert t r (x ∷ xs) le h = ground (arith, NotBefore-insert t r xs le h.1)

Ascending-insert : (r : RunningJob) (xs : List RunningJob) → Ascending xs → Ascending (insert r xs)
unfolding insert finishes_first
Ascending-insert r [] h = (tt, tt)
Ascending-insert r (x ∷ xs) h = ground (
  arith,
  Ascending-insert r xs h.1,
  NotBefore-insert x.estimated_finish r xs,
  NotBefore-mono r.estimated_finish x.estimated_finish xs,
)

Ascending-sort : (rs : List RunningJob) → Ascending (sort rs)
unfolding sort
Ascending-sort [] = tt
Ascending-sort (r ∷ rs) = Ascending-insert r (sort rs) (Ascending-sort rs)

-- Jobs that end after `t` have returned nothing by `t`.
nothing_by :
    (t s : ℕ) (rs : List RunningJob)
    → t < s
    → NotBefore s rs
    → (sum_of (cores_by t) rs ≡ 0) × (sum_of (memory_by t) rs ≡ 0)
nothing_by t s [] lt h = (refl, refl)
nothing_by t s (r ∷ rs) lt h = ground (arith, nothing_by t s rs lt h.1)

-- One round of the loop that hands resources back, with no wrap-around.
hand_back_step :
    (request free : Resources) (r : RunningJob) (rs : List RunningJob) (best : ℕ)
    → IsAccounted free (r ∷ rs)
    → let free' : Resources = record {
      cores = free.cores + r.held.cores;
      memory_mb = free.memory_mb + r.held.memory_mb;
    } in
      hand_back request free (r ∷ rs) best ≡ (
        if fits free' request
        then (if ltb r.estimated_finish best then r.estimated_finish else best)
        else hand_back request free' rs best)
unfolding hand_back
hand_back_step request free r rs best v = rw (
  add32_exact free.cores r.held.cores (omega arith),
  add64_exact free.memory_mb r.held.memory_mb (omega arith),
)

hand_back_lem :
    (request free : Resources) (rs : List RunningJob) (best t : ℕ)
    → IsAccounted free rs
    → Ascending rs
    → fits free request ≡ false
    → leb (hand_back request free rs best) t ≡ (leb best t || fits_by request free rs t)
unfolding hand_back fits
hand_back_lem request free [] best t v asc tight = ground arith
hand_back_lem request free (r ∷ rs) best t v asc tight =
    let free' : Resources = record {
      cores = free.cores + r.held.cores;
      memory_mb = free.memory_mb + r.held.memory_mb;
    } in
    let later = λ (lt : t < r.estimated_finish). nothing_by t r.estimated_finish rs lt asc.0 in
    rw (hand_back_step request free r rs best v) (elim (Bool-cases (fits free' request)) [
      | inl enough ↦ rw enough (ground (arith, later))
      | inr short ↦
          rw (short, hand_back_lem request free' rs best t (omega arith) asc.1 short)
            (ground (arith, later))
    ])

-- The loop on one node that cannot take the request now.
node_lem :
    (request : Resources) (n : Node) (running : List RunningJob) (best t : ℕ)
    → IsAccounted n.free (jobs_on n.id running)
    → can_fit n request ≡ false
    → leb (hand_back request n.free (sort (jobs_on n.id running)) best) t
      ≡ (leb best t || fits_by request n.free (jobs_on n.id running) t)
unfolding can_fit fits
node_lem request n running best t v tight =
    let js = jobs_on n.id running in
    hand_back_lem request n.free (sort js) best t
      (record {
        cores_room = omega (arith, sum_of-sort held_cores js);
        memory_room = omega (arith, sum_of-sort held_memory js);
      })
      (Ascending-sort js) tight
    ∙ ground (arith, sum_of-sort (cores_by t) js, sum_of-sort (memory_by t) js)

-- The same of a request: from now on, if a node can take it now.
abbrev pub freed_by : Resources → List Node → List RunningJob → ℕ → ℕ → Bool
freed_by request nodes running now t =
    if fits_anywhere request nodes then leb now t else some_fits_by request nodes running t

-- On every node, what is free and what is held are values of their types together.
abbrev pub AllAccounted : List Node → List RunningJob → Type 0
AllAccounted nodes running = All (λ n. IsAccounted n.free (jobs_on n.id running)) nodes

shadow_loop_lem :
    (request : Resources) (nodes : List Node) (running : List RunningJob) (now best t : ℕ)
    → AllAccounted nodes running
    → leb (shadow_loop request nodes running now best) t ≡ (
        if fits_anywhere request nodes
        then leb now t
        else leb best t || some_fits_by request nodes running t)
unfolding shadow_loop fits_anywhere
shadow_loop_lem request [] running now best t v = ground arith
shadow_loop_lem request (n ∷ ns) running now best t v = elim (Bool-cases (can_fit n request)) [
  | inl fit ↦ rw fit
  | inr tight ↦
      let next = hand_back request n.free (sort (jobs_on n.id running)) best in
      rw
        (
          tight,
          shadow_loop_lem request ns running now next t v.1,
          node_lem request n running best t v.0 tight,
        )
        (ground arith)
]

pub shadow_time-freed_by :
    (request : Resources) (nodes : List Node) (running : List RunningJob) (now t : ℕ)
    → AllAccounted nodes running
    → t < never
    → leb (shadow_time request nodes running now) t ≡ freed_by request nodes running now t
unfolding shadow_time
shadow_time-freed_by request nodes running now t v lt =
    shadow_loop_lem request nodes running now never t v ∙ ground arith

pub shadow_time-le-never :
    (request : Resources) (nodes : List Node) (running : List RunningJob) (now : ℕ)
    → fits_anywhere request nodes ≡ false
    → AllAccounted nodes running
    → shadow_time request nodes running now ≤ never
unfolding shadow_time
shadow_time-le-never request nodes running now blocked v =
    leb→le _ _ (shadow_loop_lem request nodes running now never never v ∙ rw blocked)
