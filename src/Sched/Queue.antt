-- ===== src/Sched/Queue.antt =====
-- src/atlas/sched: queue_policy.hpp, fifo_queue.cpp, backfill.hpp and backfill.cpp.
mod Tests
pub mod Shadow
pub mod Held
pub mod Pick
pub mod Reserve
use mathlib.Core.Logic.{ite}
use atlas_simulator.Prelude.{
  ℕ, ◌≡◌, Bool, true, false, not, ◌&&◌, ◌||◌, List, [], ◌∷◌, Option, none, some, ltb, leb, ◌==◌,
  if◌then◌else◌, add32, add64,
}
use atlas_simulator.Model.Types.{Resources, Node, can_fit, never}

pub record QueuedJob : Type 0 where
  pub id : ℕ
  pub request : Resources
  pub estimated_duration : ℕ
  pub submit_time : ℕ

pub record RunningJob : Type 0 where
  pub id : ℕ
  pub node : ℕ
  pub held : Resources
  pub estimated_finish : ℕ

unfoldable pub fits_anywhere : Resources → List Node → Bool
fits_anywhere request [] = false
fits_anywhere request (n ∷ ns) = if can_fit n request then true else fits_anywhere request ns

unfoldable pub fits : Resources → Resources → Bool
fits free request = leb request.cores free.cores && leb request.memory_mb free.memory_mb

-- The comparison given to std::sort.
pub finishes_first : RunningJob → RunningJob → Bool
finishes_first a b =
    if not (a.estimated_finish == b.estimated_finish)
    then ltb a.estimated_finish b.estimated_finish
    else ltb a.id b.id

-- std::sort, as insertion of each element before the first that does not come before it.
insert : RunningJob → List RunningJob → List RunningJob
insert r [] = r ∷ []
insert r (x ∷ xs) = if finishes_first x r then x ∷ insert r xs else r ∷ x ∷ xs

pub sort : List RunningJob → List RunningJob
unfolding insert finishes_first
sort [] = []
sort (r ∷ rs) = insert r (sort rs)

-- The running jobs that the first inner loop collects.
pub jobs_on : ℕ → List RunningJob → List RunningJob
jobs_on id [] = []
jobs_on id (r ∷ rs) = if r.node == id then r ∷ jobs_on id rs else jobs_on id rs

-- The loop that hands resources back, up to its `break`.
pub hand_back : Resources → Resources → List RunningJob → ℕ → ℕ
hand_back request free [] best = best
hand_back request free (r ∷ rs) best =
    let free' : Resources = record {
      cores = add32 free.cores r.held.cores;
      memory_mb = add64 free.memory_mb r.held.memory_mb;
    } in
    let rest = hand_back request free' rs best in
    if fits free' request
    then (if ltb r.estimated_finish best then r.estimated_finish else best)
    else rest

pub shadow_loop : Resources → List Node → List RunningJob → ℕ → ℕ → ℕ
shadow_loop request [] running now best = best
shadow_loop request (n ∷ ns) running now best =
    let rest =
      shadow_loop request ns running now
        (hand_back request n.free (sort (jobs_on n.id running)) best) in
    if can_fit n request then now else rest

unfoldable pub shadow_time : Resources → List Node → List RunningJob → ℕ → ℕ
unfolding shadow_loop hand_back sort jobs_on fits
shadow_time request nodes running now = shadow_loop request nodes running now never

-- The scan over `backlog[1..]`.
pub pick_candidate : List QueuedJob → List Node → ℕ → ℕ → Option ℕ
pick_candidate [] nodes now shadow = none
pick_candidate (candidate ∷ rest) nodes now shadow =
    if ltb shadow (add64 now candidate.estimated_duration)
    then pick_candidate rest nodes now shadow
    else if not (fits_anywhere candidate.request nodes)
    then pick_candidate rest nodes now shadow
    else some candidate.id

-- BackfillQueuePolicy::backfill
unfoldable pub easy_backfill : List QueuedJob → List Node → List RunningJob → ℕ → Option ℕ
unfolding pick_candidate
easy_backfill [] nodes running now = none
easy_backfill (head ∷ []) nodes running now = none
easy_backfill (head ∷ next ∷ rest) nodes running now =
    let shadow = shadow_time head.request nodes running now in
    if shadow == never then none else pick_candidate (next ∷ rest) nodes now shadow

pub data QueuePolicy : Type 0 where
  fifo backfill : QueuePolicy

-- The virtual call. Neither policy keeps state.
unfoldable pub pick : QueuePolicy → List QueuedJob → List Node → List RunningJob → ℕ → Option ℕ
pick fifo backlog nodes running now = none
pick backfill backlog nodes running now = easy_backfill backlog nodes running now
