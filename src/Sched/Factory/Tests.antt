-- ===== src/Sched/Factory/Tests.antt =====
-- A name of src/atlas/sched/factory.cpp and one of queue_factory.cpp.
use atlas_simulator.Prelude.{ℕ}
use atlas_simulator.Sched.Place.Any.{IsReady}
use atlas_simulator.Sched.Factory.{
  scheduler_names, scheduler_name, make_scheduler, queue_policy_names, queue_policy_name,
  make_queue_policy,
}
use atlas_simulator.Sched.Factory.Names.{Serves, make_scheduler-Serves, make_queue_policy-Serves}

make_scheduler-Serves_example :
    Serves scheduler_names scheduler_name
      (λ s. (count : ℕ) → IsReady s count)
      "least_loaded"
      (make_scheduler "least_loaded")
make_scheduler-Serves_example = make_scheduler-Serves "least_loaded"

make_queue_policy-Serves_example :
    Serves queue_policy_names queue_policy_name
      (λ p. Unit)
      "backfill"
      (make_queue_policy "backfill")
make_queue_policy-Serves_example = make_queue_policy-Serves "backfill"
