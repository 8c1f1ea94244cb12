-- ===== src/Sched/Place/Any.antt =====
-- `place` of src/atlas/sched/scheduler.hpp, for an object of any of the four classes.
use atlas_simulator.Prelude.{
  ℕ, ◌<◌, ◌≡◌, refl, ◌⊎◌, inl, inr, List, [], ◌∷◌, Option, none, some, arith, length, u64_mod,
}
use atlas_simulator.Model.Types.{Node, Job}
use atlas_simulator.Sched.Place.{
  Scheduler, first_fit, round_robin, least_loaded, resource_aware, round_robin_loop,
  round_robin_place, share_lt, share_before, share_after, place,
}
use atlas_simulator.Sched.Place.Contract.{Answers, first_fit-Answers}
use atlas_simulator.Sched.Place.Best.{scan-Answers, least_loaded-scan, resource_aware-scan}
use atlas_simulator.Sched.Place.Cursor.{Ends, round_robin-Ends}

-- The cursor of a round robin object lies inside a cluster of `count` nodes.
abbrev pub IsReady : Scheduler → ℕ → Type 0
IsReady (round_robin pos) count = (pos < count) ⊎ (count ≡ 0)
IsReady _ count = Unit

-- The call comes back, its answer is right, and the object is ready for the next call.
pub record Placed (job : Job) (nodes : List Node) (r : Option (Option ℕ × Scheduler)) : Type 0 where
  pub answer : Option ℕ
  pub scheduler : Scheduler
  pub result : r ≡ some (answer, scheduler)
  pub right : Answers job.request nodes answer
  pub ready : IsReady scheduler (length nodes)

round_robin-Placed :
    (pos : ℕ) (job : Job) (nodes : List Node)
    → Ends job.request nodes (round_robin_place job.request nodes pos)
    → Placed job nodes (place (round_robin pos) job nodes)
unfolding place
round_robin-Placed pos job nodes e =
    rw (e.result, place)
      (record {
        answer = e.answer;
        scheduler = round_robin e.cursor;
        result = refl;
        right = e.right;
        ready = inl e.inside;
      })

-- For every policy and every list of fewer than 2^64 nodes, the call of an object that is ready
-- reads no node out of bounds. It answers with the id of a node of the list that can take the
-- job's request, or with no id, and then no node of the list can take it. It leaves the object
-- ready.
pub place-Placed :
    (s : Scheduler) (job : Job) (nodes : List Node)
    → length nodes < u64_mod
    → IsReady s (length nodes)
    → Placed job nodes (place s job nodes)
unfolding place round_robin_place round_robin_loop
place-Placed first_fit job nodes small ready = record {
  answer = _;
  scheduler = first_fit;
  result = refl;
  right = first_fit-Answers job.request nodes;
  ready = tt;
}
place-Placed (round_robin pos) job [] small ready = record {
  answer = none;
  scheduler = round_robin pos;
  result = refl;
  right = tt;
  ready = ready;
}
place-Placed (round_robin pos) job (n ∷ ns) small ready = elim ready [
  | inl inside ↦
      round_robin-Placed pos job (n ∷ ns) (round_robin-Ends job.request (n ∷ ns) pos small inside)
  | inr empty ↦ absurd (omega arith)
]
place-Placed least_loaded job nodes small ready = record {
  answer = _;
  scheduler = least_loaded;
  result = refl;
  right =
      rw (least_loaded-scan job.request nodes none)
        (scan-Answers share_lt share_before job.request nodes);
  ready = tt;
}
place-Placed resource_aware job nodes small ready = record {
  answer = _;
  scheduler = resource_aware;
  result = refl;
  right =
      rw (resource_aware-scan job.request nodes none)
        (scan-Answers (λ a b. share_lt b a) (share_after job.request) job.request nodes);
  ready = tt;
}
