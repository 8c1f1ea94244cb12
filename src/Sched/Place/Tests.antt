-- ===== src/Sched/Place/Tests.antt =====
-- The placement policies of src/atlas/sched on a small node and on a larger one, half in use.
use atlas_simulator.Prelude.{
  ℕ, ◌≤◌, ◌*◌, ◌≡◌, ◌⊎◌, inl, List, [], ◌∷◌, ◌++◌, take, drop, Option, some, arith, All,
}
use atlas_simulator.Model.Types.{Resources, Node, Job, queued, never}
use atlas_simulator.Sched.Place.{
  dominant_share, round_robin, least_loaded, resource_aware, place, round_robin_place,
}
use atlas_simulator.Sched.Place.Any.{Placed, place-Placed}
use atlas_simulator.Sched.Place.Turn.{IsTurn, round_robin-IsTurn}
use atlas_simulator.Sched.Place.Share.{dominant_share_lem}
use atlas_simulator.Sched.Place.Choice.{IsModest}
use atlas_simulator.Sched.Place.Tops.{Less, NoMore, nothing}
use atlas_simulator.Sched.Place.Dominance.{Prefers, least_loaded-Prefers, resource_aware-Prefers}

abbrev job : Job
job = record {
  id = 0;
  request = record { cores = 6; memory_mb = 1024 };
  duration = 10;
  estimated_duration = 10;
  submit_time = 0;
  start_time = never;
  finish_time = never;
  node = 0;
  state = queued;
}

abbrev nodes : List Node
nodes =
    (record {
      id = 0;
      capacity = record { cores = 8; memory_mb = 4096 };
      free = record { cores = 4; memory_mb = 4096 };
      running_jobs = 1;
    })
    ∷ (record {
      id = 1;
      capacity = record { cores = 16; memory_mb = 8192 };
      free = record { cores = 8; memory_mb = 4096 };
      running_jobs = 1;
    })
    ∷ []

place-Placed_example : Placed job nodes (place (round_robin 1) job nodes)
place-Placed_example = place-Placed (round_robin 1) job nodes (omega arith) (inl (omega arith))

round_robin-IsTurn_example :
    IsTurn job.request (drop 1 nodes ++ take 1 nodes) (round_robin_place job.request nodes 0)
round_robin-IsTurn_example = round_robin-IsTurn job.request nodes 0 (omega arith) (omega arith)

nodes-IsModest : All IsModest nodes
nodes-IsModest = (
  record {
    is_node = record {
      cores_fit = omega arith;
      memory_fit = omega arith;
      free_cores = omega arith;
      free_memory = omega arith;
    };
    some_cores = omega arith;
    some_memory = omega arith;
    memory_below = omega arith;
  },
  (
    record {
      is_node = record {
        cores_fit = omega arith;
        memory_fit = omega arith;
        free_cores = omega arith;
        free_memory = omega arith;
      };
      some_cores = omega arith;
      some_memory = omega arith;
      memory_below = omega arith;
    },
    tt,
  ),
)

least_loaded-Prefers_example :
    (r : Option ℕ) × (place least_loaded job nodes ≡ some (r, least_loaded))
    × Prefers (Less nothing) (NoMore nothing) job.request nodes r
least_loaded-Prefers_example = least_loaded-Prefers job nodes nodes-IsModest

resource_aware-Prefers_example :
    (r : Option ℕ) × (place resource_aware job nodes ≡ some (r, resource_aware))
    × Prefers (λ m n. Less job.request n m) (λ m n. NoMore job.request n m) job.request nodes r
resource_aware-Prefers_example = resource_aware-Prefers job nodes nodes-IsModest

abbrev used : Resources
used = record { cores = 4; memory_mb = 3072 }

abbrev capacity : Resources
capacity = record { cores = 8; memory_mb = 4096 }

dominant_share_lem_example :
    let share = dominant_share used capacity in
    ((share ≡ record { used = 4; capacity = 8 })
      ⊎ (share ≡ record { used = 3072; capacity = 4096 }))
    × (4 * share.capacity ≤ share.used * 8)
    × (3072 * share.capacity ≤ share.used * 4096)
dominant_share_lem_example =
    dominant_share_lem used capacity
      (record { used_fits = omega arith; capacity_fits = omega arith; some_capacity = omega arith })
      (record { used_fits = omega arith; capacity_fits = omega arith; some_capacity = omega arith })
