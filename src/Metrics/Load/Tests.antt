-- ===== src/Metrics/Load/Tests.antt =====
-- The offered load of two jobs on one node.
use atlas_simulator.Prelude.{ℕ, ◌≡◌, refl, List, [], ◌∷◌, some, arith}
use atlas_simulator.Model.Types.{Job, queued, never}
use atlas_simulator.Doubles.{whole}
use atlas_simulator.Model.Cluster.{Cluster}
use atlas_simulator.Metrics.Load.{offered_load}
use atlas_simulator.Metrics.Load.Sums.{IsMeasurable, offered_load_exact}

abbrev asked : ℕ → ℕ → Job
asked id at = record {
  id = id;
  request = record { cores = 4; memory_mb = 8 };
  duration = 30;
  estimated_duration = 30;
  submit_time = at;
  start_time = never;
  finish_time = never;
  node = 0;
  state = queued;
}

abbrev pair : List Job
pair = asked 0 5 ∷ asked 1 15 ∷ []

abbrev one_node : Cluster
one_node = record {
  nodes =
      record {
        id = 0;
        capacity = record { cores = 8; memory_mb = 16 };
        free = record { cores = 8; memory_mb = 16 };
        running_jobs = 0;
      }
      ∷ [];
}

pair-IsMeasurable : IsMeasurable pair one_node (asked 0 5) (asked 1 15)
pair-IsMeasurable = record {
  first_at = refl;
  last_at = refl;
  in_order = omega arith;
  last_fits = omega arith;
  summable = record { cores_sum = omega arith; memory_sum = omega arith };
  cores_fit = omega arith;
  memory_fit = omega arith;
  core_span = omega arith;
  memory_span = omega arith;
}

offered_load_exact_example :
    offered_load whole pair one_node ≡ some (record { cores = 3; memory = 3 })
offered_load_exact_example =
    offered_load_exact whole pair one_node (asked 0 5) (asked 1 15) pair-IsMeasurable
