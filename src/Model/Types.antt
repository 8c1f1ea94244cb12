-- ===== src/Model/Types.antt =====
-- src/atlas/model/resources.hpp, node.hpp, job.hpp, and src/atlas/engine/clock.hpp, ids.hpp.
-- A `Tick`, a `JobId` and a `NodeId` are the numbers that they stand for.
use atlas_simulator.Prelude.{ℕ, ◌-◌, ◌^◌, ◌≤◌, ◌<◌, Bool, ◌&&◌, leb, u32_mod, u64_mod}

-- A tick that has not been set.
abbrev pub never : ℕ
never = 2 ^ 64 - 1

pub record Resources : Type 0 where
  pub cores : ℕ
  pub memory_mb : ℕ

pub record Node : Type 0 where
  pub id : ℕ
  pub capacity : Resources
  pub free : Resources
  pub running_jobs : ℕ

unfoldable pub can_fit : Node → Resources → Bool
can_fit n request = leb request.cores n.free.cores && leb request.memory_mb n.free.memory_mb

pub data JobState : Type 0 where
  queued running done : JobState

pub record Job : Type 0 where
  pub id : ℕ
  pub request : Resources
  pub duration : ℕ
  pub estimated_duration : ℕ
  pub submit_time : ℕ
  pub start_time : ℕ
  pub finish_time : ℕ
  pub node : ℕ
  pub state : JobState

-- The values that the field types can hold, and no more free than there is.
pub record IsNode (n : Node) : Type 0 where
  pub cores_fit : n.capacity.cores < u32_mod
  pub memory_fit : n.capacity.memory_mb < u64_mod
  pub free_cores : n.free.cores ≤ n.capacity.cores
  pub free_memory : n.free.memory_mb ≤ n.capacity.memory_mb
