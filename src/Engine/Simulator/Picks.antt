-- ===== src/Engine/Simulator/Picks.antt =====
-- The job that a queue policy picks in `drain` of src/atlas/engine/simulator.cpp.
use atlas_simulator.Prelude.{
  ◌≢◌, ℕ, ◌<◌, ◌≡◌, refl, subst, true, false, List, [], ◌∷◌, some, get_elem?, ◌==◌,
}
use atlas_simulator.Model.Types.{Resources, Node, Job}
use atlas_simulator.Sched.Place.Contract.{Refused}
use atlas_simulator.Sched.Queue.{
  QueuedJob, RunningJob, QueuePolicy, fifo, backfill, pick, fits_anywhere, easy_backfill,
}
use atlas_simulator.Sched.Queue.Pick.{IsPick, pick-IsPick}
use atlas_simulator.Engine.Simulator.{erase}
use atlas_simulator.Engine.Simulator.Ledger.{count, JobsInv}
use atlas_simulator.Engine.Simulator.Views.{Shows, Shows-entry, Erased, erase_lem}

-- The job that a policy picks stands behind the head, and some node can take it.
pub record Picked (jobs : List Job) (pending : List ℕ) (nodes : List Node) (id : ℕ) : Type 0 where
  pub front : ℕ
  pub rest : List ℕ
  pub split : pending ≡ front ∷ rest
  pub job : Job
  pub at : get_elem? jobs id ≡ some job
  pub behind : 0 < count id rest
  pub fits : fits_anywhere job.request nodes ≡ true

pub pick-Picked :
    (policy : QueuePolicy) (jobs : List Job) (pending : List ℕ) (js : List QueuedJob)
    (nodes : List Node) (rs : List RunningJob) (now id : ℕ)
    → JobsInv jobs
    → Shows jobs pending js
    → pick policy js nodes rs now ≡ some id
    → Picked jobs pending nodes id
unfolding pick easy_backfill
pick-Picked fifo jobs pending js nodes rs now id v shows e = cc
pick-Picked backfill jobs [] [] nodes rs now id v shows e = cc
pick-Picked backfill jobs [] (q ∷ js) nodes rs now id v shows e = absurd shows
pick-Picked backfill jobs (front ∷ rest) [] nodes rs now id v shows e = absurd shows
pick-Picked backfill jobs (front ∷ rest) (q ∷ js) nodes rs now id v shows e =
    let p : IsPick js nodes id = pick-IsPick backfill q js nodes rs now e in
    let (j, at, same, listed) =
      Shows-entry jobs rest p.passed p.candidate p.rest v
        (subst (Shows jobs rest) p.split shows.1) in
    record {
      front = front;
      rest = rest;
      split = refl;
      job = j;
      at = rw (← p.named) at;
      behind = rw (← p.named) listed;
      fits = rw (← same) p.fits;
    }

-- A policy that picks a job is not the one that never does.
pub pick-policy :
    (policy : QueuePolicy) (js : List QueuedJob) (nodes : List Node) (rs : List RunningJob)
    (now id : ℕ)
    → pick policy js nodes rs now ≡ some id
    → policy ≢ fifo
unfolding pick
pick-policy fifo js nodes rs now id e same = cc
pick-policy backfill js nodes rs now id e same = cc

pub Refused-fits :
    (r : Resources) (nodes : List Node) → Refused r nodes → fits_anywhere r nodes ≡ false
unfolding fits_anywhere
Refused-fits r [] h = refl
Refused-fits r (n ∷ ns) h = rw h.0 (Refused-fits r ns h.1)

-- Erasing an id from behind the head.
pub erase_behind :
    (id front : ℕ) (rest : List ℕ)
    → (front == id) ≡ false
    → 0 < count id rest
    → (rest' : List ℕ) × (erase id (front ∷ rest) ≡ some (front ∷ rest')) × Erased id rest rest'
unfolding erase
erase_behind id front rest other listed =
    let (rest', e, r) = erase_lem id rest listed in (rest', rw (other, e) refl, r)
