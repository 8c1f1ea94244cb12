-- ===== src/Sched/Place.antt =====
-- src/atlas/sched: scheduler.hpp, the four placement policies, and dominant_share.hpp. An object of
-- a derived class is a constructor of `Scheduler` with the fields that the class adds; `place`
-- returns the object as the call leaves it.
mod Tests
pub mod Contract
pub mod Best
pub mod Cursor
pub mod Turn
pub mod Any
pub mod Share
pub mod Choice
pub mod Tops
pub mod Dominance
use atlas_simulator.Prelude.{
  ℕ, zero, suc, ◌%◌, ◌≡◌, Bool, true, false, List, [], ◌∷◌, Option, none, some, ltb, if◌then◌else◌,
  get_elem?, length, add32, sub32, add64, sub64, mul64, ◌==◌,
}
use atlas_simulator.Model.Types.{Resources, Node, Job, can_fit}

pub record DominantShare : Type 0 where
  pub used : ℕ
  pub capacity : ℕ

-- operator<
unfoldable pub share_lt : DominantShare → DominantShare → Bool
share_lt a b = ltb (mul64 a.used b.capacity) (mul64 b.used a.capacity)

unfoldable pub dominant_share : Resources → Resources → DominantShare
dominant_share used capacity =
    let cores : DominantShare = record { used = used.cores; capacity = capacity.cores } in
    let memory : DominantShare = record { used = used.memory_mb; capacity = capacity.memory_mb } in
    if share_lt cores memory then memory else cores

-- FirstFitScheduler::place
pub first_fit_place : Resources → List Node → Option ℕ
first_fit_place request [] = none
first_fit_place request (n ∷ ns) =
    if can_fit n request then some n.id else first_fit_place request ns

-- RoundRobinScheduler::place. `left` is `nodes.size() - count`, the rounds that the loop's own
-- test still allows; the result holds `pos` as the call leaves it.
pub round_robin_loop : Resources → List Node → ℕ → ℕ → ℕ → Option (Option ℕ × ℕ)
round_robin_loop request nodes start_pos zero pos = some (none, pos)
round_robin_loop request nodes start_pos (suc left) pos =
    let next = add64 pos 1 % length nodes in
    let rest = round_robin_loop request nodes start_pos left next in
    elim (get_elem? nodes next) [
      | none ↦ none
      | some n ↦
          if can_fit n request
          then some (some n.id, next)
          else if next == start_pos
          then some (none, next)
          else rest
    ]

pub round_robin_place : Resources → List Node → ℕ → Option (Option ℕ × ℕ)
unfolding round_robin_loop
round_robin_place request nodes pos = round_robin_loop request nodes pos (length nodes) pos

-- The share of a node that is in use, as LeastLoadedScheduler computes it.
unfoldable pub share_before : Node → DominantShare
share_before n =
    dominant_share
      (record {
        cores = sub32 n.capacity.cores n.free.cores;
        memory_mb = sub64 n.capacity.memory_mb n.free.memory_mb;
      })
      n.capacity

-- The share of a node that would be in use with the job on it, as ResourceAwareScheduler has it.
unfoldable pub share_after : Resources → Node → DominantShare
share_after request n =
    dominant_share
      (record {
        cores = add32 (sub32 n.capacity.cores n.free.cores) request.cores;
        memory_mb = add64 (sub64 n.capacity.memory_mb n.free.memory_mb) request.memory_mb;
      })
      n.capacity

-- The two loops over the nodes. `best` is the node chosen so far and its share.
pub least_loaded_loop : Resources → List Node → Option (ℕ × DominantShare) → Option ℕ
least_loaded_loop request [] none = none
least_loaded_loop request [] (some (id, share)) = some id
least_loaded_loop request (n ∷ ns) best = least_loaded_loop request ns (
    if can_fit n request
    then elim best [
      | none ↦ some (n.id, share_before n)
      | some (id, best_share) ↦
          if share_lt (share_before n) best_share
          then some (n.id, share_before n)
          else some (id, best_share)
    ]
    else best)

pub resource_aware_loop : Resources → List Node → Option (ℕ × DominantShare) → Option ℕ
resource_aware_loop request [] none = none
resource_aware_loop request [] (some (id, share)) = some id
resource_aware_loop request (n ∷ ns) best = resource_aware_loop request ns (
    if can_fit n request
    then elim best [
      | none ↦ some (n.id, share_after request n)
      | some (id, best_share) ↦
          if share_lt best_share (share_after request n)
          then some (n.id, share_after request n)
          else some (id, best_share)
    ]
    else best)

pub data Scheduler : Type 0 where
  first_fit : Scheduler
  round_robin : (pos : ℕ) → Scheduler
  least_loaded : Scheduler
  resource_aware : Scheduler

-- The virtual call. `none` is an access outside `nodes`.
unfoldable pub place : Scheduler → Job → List Node → Option (Option ℕ × Scheduler)
unfolding first_fit_place round_robin_place least_loaded_loop resource_aware_loop
place first_fit job nodes = some (first_fit_place job.request nodes, first_fit)
place (round_robin pos) job nodes = elim (round_robin_place job.request nodes pos) [
  | none ↦ none
  | some (id, pos') ↦ some (id, round_robin pos')
]
place least_loaded job nodes = some (least_loaded_loop job.request nodes none, least_loaded)
place resource_aware job nodes = some (resource_aware_loop job.request nodes none, resource_aware)
