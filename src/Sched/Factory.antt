-- ===== src/Sched/Factory.antt =====
-- The names of the policies: src/atlas/sched/factory.cpp, queue_factory.cpp, and the method `name`
-- of each class. A null pointer is `none`.
pub mod Names
mod Tests
use Prim.Native.String.{String}
use text.Mathlib.Text.{◌==◌}
use atlas_simulator.Prelude.{ℕ, List, [], ◌∷◌, Option, none, some, if◌then◌else◌}
use atlas_simulator.Sched.Place.{Scheduler, first_fit, round_robin, least_loaded, resource_aware}
use atlas_simulator.Sched.Queue.{QueuePolicy, fifo, backfill}

abbrev pub scheduler_names : List String
scheduler_names = "first_fit" ∷ "round_robin" ∷ "least_loaded" ∷ "resource_aware" ∷ []

abbrev pub scheduler_name : Scheduler → String
scheduler_name first_fit = "first_fit"
scheduler_name (round_robin pos) = "round_robin"
scheduler_name least_loaded = "least_loaded"
scheduler_name resource_aware = "resource_aware"

unfoldable pub make_scheduler : String → Option Scheduler
make_scheduler name =
    if name == "first_fit"
    then some first_fit
    else if name == "round_robin"
    then some (round_robin 0)
    else if name == "least_loaded"
    then some least_loaded
    else if name == "resource_aware"
    then some resource_aware
    else none

abbrev pub queue_policy_names : List String
queue_policy_names = "fifo" ∷ "backfill" ∷ []

abbrev pub queue_policy_name : QueuePolicy → String
queue_policy_name fifo = "fifo"
queue_policy_name backfill = "backfill"

unfoldable pub make_queue_policy : String → Option QueuePolicy
make_queue_policy name =
    if name == "fifo" then some fifo else if name == "backfill" then some backfill else none
