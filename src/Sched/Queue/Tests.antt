-- ===== src/Sched/Queue/Tests.antt =====
-- EASY backfill of src/atlas/sched/backfill.cpp: a head that waits for a whole node, behind two
-- nodes with one running job each.
use atlas_simulator.Prelude.{
  ℕ, zero, suc, ◌≤◌, ◌≡◌, refl, true, false, List, [], ◌∷◌, some, arith, All, leb, get_elem?-unique,
  ap, add64, add32,
}
use atlas_simulator.Model.Types.{Node, can_fit}
use atlas_simulator.Sched.Queue.{
  QueuedJob, RunningJob, backfill, fits_anywhere, fits, shadow_time, jobs_on, easy_backfill, pick,
}
use atlas_simulator.Sched.Queue.Shadow.{AllAccounted}
use atlas_simulator.Sched.Queue.Held.{IsBooked, held_by, shadow_time_lem}
use atlas_simulator.Sched.Queue.Pick.{
  IsPick, Backfills, admissible, easy_backfill-Backfills, pick-IsPick,
}
use atlas_simulator.Sched.Queue.Reserve.{
  HasDenseIds, IsStart, nodes_after, running_after, shadow_time-backfill,
}

abbrev nodes : List Node
nodes =
    (record {
      id = 0;
      capacity = record { cores = 16; memory_mb = 4096 };
      free = record { cores = 6; memory_mb = 4000 };
      running_jobs = 1;
    })
    ∷ (record {
      id = 1;
      capacity = record { cores = 16; memory_mb = 4096 };
      free = record { cores = 0; memory_mb = 4000 };
      running_jobs = 1;
    })
    ∷ []

abbrev running : List RunningJob
running =
    (record {
      id = 8;
      node = 1;
      held = record { cores = 16; memory_mb = 96 };
      estimated_finish = 200;
    })
    ∷ (record {
      id = 9;
      node = 0;
      held = record { cores = 10; memory_mb = 96 };
      estimated_finish = 100;
    })
    ∷ []

abbrev job : ℕ → ℕ → ℕ → QueuedJob
job id cores duration = record {
  id = id;
  request = record { cores = cores; memory_mb = 64 };
  estimated_duration = duration;
  submit_time = 0;
}

abbrev head : QueuedJob
head = job 1 16 500

-- Too long, too large, and good.
abbrev behind : List QueuedJob
behind = job 2 4 400 ∷ job 3 8 20 ∷ job 4 4 90 ∷ []

nodes-AllAccounted : AllAccounted nodes running
unfolding jobs_on
nodes-AllAccounted = (
  record { cores_room = omega arith; memory_room = omega arith },
  (record { cores_room = omega arith; memory_room = omega arith }, tt),
)

nodes-IsBooked : All (IsBooked running) nodes
nodes-IsBooked = (
  record { cores_room = omega arith; memory_room = omega arith },
  (record { cores_room = omega arith; memory_room = omega arith }, tt),
)

head_shadow : shadow_time head.request nodes running 10 ≡ 100
unfolding shadow_time can_fit fits add32 add64
head_shadow = refl

shadow_time_lem_example :
    leb (shadow_time head.request nodes running 10) 99 ≡ held_by head.request nodes running 10 99
shadow_time_lem_example =
    shadow_time_lem head.request nodes running 10 99 nodes-IsBooked (omega arith)

picks : pick backfill (head ∷ behind) nodes running 10 ≡ some 4
unfolding pick easy_backfill shadow_time can_fit fits fits_anywhere add32 add64
picks = refl

easy_backfill-Backfills_example :
    Backfills head behind nodes running 10 (easy_backfill (head ∷ behind) nodes running 10)
easy_backfill-Backfills_example = easy_backfill-Backfills head behind nodes running 10

pick-IsPick_example : IsPick behind nodes 4
pick-IsPick_example = pick-IsPick backfill head behind nodes running 10 picks

abbrev first : Node
first = record {
  id = 0;
  capacity = record { cores = 16; memory_mb = 4096 };
  free = record { cores = 6; memory_mb = 4000 };
  running_jobs = 1;
}

nodes_ids : HasDenseIds nodes
nodes_ids zero n at = ap (λ (m : Node). m.id) (get_elem?-unique nodes 0 0 refl refl at)
nodes_ids (suc zero) n at = ap (λ (m : Node). m.id) (get_elem?-unique nodes 1 1 refl refl at)
nodes_ids (suc (suc k)) n at = cc

start : IsStart nodes running 0 first 4 (job 4 4 90).request (add64 10 90)
unfolding can_fit
start = record {
  dense = nodes_ids;
  at = refl;
  is_node = record {
    cores_fit = omega arith;
    memory_fit = omega arith;
    free_cores = omega arith;
    free_memory = omega arith;
  };
  room = omega arith;
  can = refl;
}

head_waits : fits_anywhere head.request nodes ≡ false
unfolding fits_anywhere can_fit
head_waits = refl

good_admitted : admissible nodes 10 (shadow_time head.request nodes running 10) (job 4 4 90) ≡ true
unfolding fits_anywhere can_fit add64
good_admitted = rw head_shadow refl

shadow_time-backfill_example :
    shadow_time head.request
      (nodes_after nodes running 0 first 4 (job 4 4 90).request (add64 10 90))
      (running_after nodes running 0 first 4 (job 4 4 90).request (add64 10 90))
      10
    ≤ shadow_time head.request nodes running 10
shadow_time-backfill_example =
    shadow_time-backfill head (job 4 4 90) nodes running 10 0 first head_waits nodes-AllAccounted
      (λ e. omega (arith, head_shadow, e)) good_admitted start
