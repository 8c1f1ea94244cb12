-- ===== src/Sched/Queue/Held.antt =====
-- `shadow_time` of src/atlas/sched/backfill.cpp against a definition by sums over all running jobs.
use atlas_simulator.Prelude.{
  ℕ, ◌+◌, ◌<◌, ◌≡◌, refl, ap, ◌∙◌, inl, inr, Bool, false, ◌&&◌, ◌||◌, List, [], ◌∷◌, arith, leb,
  ◌==◌, if◌then◌else◌, Bool-cases, All, sum_of, u32_mod, u64_mod,
}
use atlas_simulator.Model.Types.{Resources, Node, can_fit, never}
use atlas_simulator.Sched.Queue.{RunningJob, fits_anywhere, jobs_on, shadow_time}
use atlas_simulator.Sched.Queue.Shadow.{
  held_cores, held_memory, cores_by, memory_by, some_fits_by, AllAccounted, shadow_time-freed_by,
}

-- A quantity of the jobs on one node.
abbrev pub on_node : (RunningJob → ℕ) → Node → List RunningJob → ℕ
on_node f n = sum_of λ (r : RunningJob). if r.node == n.id then f r else 0

-- What a job holds, if it is predicted to have ended by `t`.
abbrev pub cores_back : ℕ → RunningJob → ℕ
cores_back t r = if leb r.estimated_finish t then r.held.cores else 0

abbrev pub memory_back : ℕ → RunningJob → ℕ
memory_back t r = if leb r.estimated_finish t then r.held.memory_mb else 0

-- The request is within what is free on some node.
abbrev pub some_takes : Resources → List Node → Bool
some_takes request [] = false
some_takes request (n ∷ ns) =
    (leb request.cores n.free.cores && leb request.memory_mb n.free.memory_mb)
    || some_takes request ns

-- The request is within what is free on some node and what its jobs that are predicted to have
-- ended by `t` hold.
abbrev pub some_will_take : Resources → List Node → List RunningJob → ℕ → Bool
some_will_take request [] running t = false
some_will_take request (n ∷ ns) running t =
    (leb request.cores (n.free.cores + on_node (cores_back t) n running)
      && leb request.memory_mb (n.free.memory_mb + on_node (memory_back t) n running))
    || some_will_take request ns running t

-- Whether the request can be held by `t`: from now on, if a node can take it now, and otherwise
-- once the jobs of some node that are predicted to end by `t` have returned enough.
abbrev pub held_by : Resources → List Node → List RunningJob → ℕ → ℕ → Bool
held_by request nodes running now t =
    if some_takes request nodes then leb now t else some_will_take request nodes running t

-- On a node, what is free and what its jobs hold are values of their types together.
pub record IsBooked (running : List RunningJob) (n : Node) : Type 0 where
  pub cores_room : n.free.cores + on_node (λ (r : RunningJob). r.held.cores) n running < u32_mod
  pub memory_room :
      n.free.memory_mb + on_node (λ (r : RunningJob). r.held.memory_mb) n running < u64_mod

sum_of-jobs_on :
    (f : RunningJob → ℕ) (n : Node) (rs : List RunningJob)
    → sum_of f (jobs_on n.id rs) ≡ on_node f n rs
unfolding jobs_on
sum_of-jobs_on f n [] = refl
sum_of-jobs_on f n (r ∷ rs) = elim (Bool-cases (r.node == n.id)) [
  | inl here ↦ rw here (ap (λ x. f r + x) (sum_of-jobs_on f n rs))
  | inr other ↦ rw other (omega (arith, sum_of-jobs_on f n rs))
]

AllAccounted-booked :
    (nodes : List Node) (running : List RunningJob)
    → All (IsBooked running) nodes
    → AllAccounted nodes running
AllAccounted-booked [] running v = tt
AllAccounted-booked (n ∷ ns) running v = (
  record {
    cores_room = omega (arith, v.0.cores_room, sum_of-jobs_on held_cores n running);
    memory_room = omega (arith, v.0.memory_room, sum_of-jobs_on held_memory n running);
  },
  AllAccounted-booked ns running v.1,
)

some_fits_by_lem :
    (request : Resources) (nodes : List Node) (running : List RunningJob) (t : ℕ)
    → some_fits_by request nodes running t ≡ some_will_take request nodes running t
some_fits_by_lem request [] running t = refl
some_fits_by_lem request (n ∷ ns) running t =
    rw
      (
        sum_of-jobs_on (cores_by t) n running,
        sum_of-jobs_on (memory_by t) n running,
        some_fits_by_lem request ns running t,
      )
      refl

fits_anywhere_lem :
    (request : Resources) (nodes : List Node)
    → fits_anywhere request nodes ≡ some_takes request nodes
unfolding fits_anywhere can_fit
fits_anywhere_lem request [] = refl
fits_anywhere_lem request (n ∷ ns) = ground (arith, fits_anywhere_lem request ns)

-- `shadow_time` is at most `t`, for a `t` before `never`, exactly when the request can be held by
-- `t`, if on every node what is free and what its jobs hold stay within 32 and 64 bits together.
-- It can be held from `now` on if some node has it free, and otherwise once the jobs of some node
-- that are predicted to end by `t` return enough to what is free there.
pub shadow_time_lem :
    (request : Resources) (nodes : List Node) (running : List RunningJob) (now t : ℕ)
    → All (IsBooked running) nodes
    → t < never
    → leb (shadow_time request nodes running now) t ≡ held_by request nodes running now t
shadow_time_lem request nodes running now t v lt =
    shadow_time-freed_by request nodes running now t (AllAccounted-booked nodes running v) lt
    ∙ rw (fits_anywhere_lem request nodes, some_fits_by_lem request nodes running t) refl
