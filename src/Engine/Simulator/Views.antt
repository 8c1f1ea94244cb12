-- ===== src/Engine/Simulator/Views.antt =====
-- The views that `rebuild_views` of src/atlas/engine/simulator.cpp hands to a queue policy, and
-- the erasure of an id from a list.
use atlas_simulator.Prelude.{
  ℕ, suc, ◌+◌, ◌<◌, ◌≡◌, refl, ap, ◌∙◌, inl, inr, List, [], ◌∷◌, ◌++◌, some, arith, All, sum_of,
  get_elem?, get_elem?-in, length, ◌>>=◌, ◌==◌, ==_iff, Bool-cases, add64,
}
use atlas_simulator.Model.Types.{Job}
use atlas_simulator.Sched.Queue.{QueuedJob, RunningJob}
use atlas_simulator.Engine.Simulator.{backlog_view, running_view, erase}
use atlas_simulator.Engine.Simulator.Ledger.{is, count, JobsInv}

-- The entry of a view for a job.
abbrev pub queued_job : Job → QueuedJob
queued_job j = record {
  id = j.id;
  request = j.request;
  estimated_duration = j.estimated_duration;
  submit_time = j.submit_time;
}

-- The view shows the listed jobs in their order.
abbrev pub Shows : List Job → List ℕ → List QueuedJob → Type 0
Shows jobs [] [] = Unit
Shows jobs [] (q ∷ js) = ⊥
Shows jobs (id ∷ ids) [] = ⊥
Shows jobs (id ∷ ids) (q ∷ js) =
    ((j : Job) × (get_elem? jobs id ≡ some j) × (q ≡ queued_job j)) × Shows jobs ids js

pub backlog_view_total :
    (jobs : List Job) (ids : List ℕ)
    → All (λ id. id < length jobs) ids
    → (js : List QueuedJob) × (backlog_view jobs ids ≡ some js) × Shows jobs ids js
unfolding backlog_view
backlog_view_total jobs [] inside = ([], refl, tt)
backlog_view_total jobs (id ∷ ids) inside =
    let (j, at) = get_elem?-in jobs id inside.0 in
    let (js, e, shows) = backlog_view_total jobs ids inside.1 in
    (queued_job j ∷ js, rw (at, ◌>>=◌) (rw (e, ◌>>=◌) refl), ((j, at, refl), shows))

pub running_view_total :
    (jobs : List Job) (ids : List ℕ)
    → All (λ id. id < length jobs) ids
    → (rs : List RunningJob) × (running_view jobs ids ≡ some rs)
unfolding running_view
running_view_total jobs [] inside = ([], refl)
running_view_total jobs (id ∷ ids) inside =
    let (j, at) = get_elem?-in jobs id inside.0 in
    let (rs, e) = running_view_total jobs ids inside.1 in
    (
      (record {
        id = j.id;
        node = j.node;
        held = j.request;
        estimated_finish = add64 j.start_time j.estimated_duration;
      })
          ∷ rs,
      rw (at, ◌>>=◌) (rw (e, ◌>>=◌) refl),
    )

listed : (x id : ℕ) → x ≡ id → is x id ≡ 1
listed x id e = ground arith

-- An entry of the view belongs to a listed job with its request.
pub Shows-entry :
    (jobs : List Job) (ids : List ℕ) (passed : List QueuedJob) (c : QueuedJob)
    (rest : List QueuedJob)
    → JobsInv jobs
    → Shows jobs ids (passed ++ c ∷ rest)
    → (j : Job) × (get_elem? jobs c.id ≡ some j) × (c.request ≡ j.request) × (0 < count c.id ids)
Shows-entry jobs [] [] c rest v shows = absurd shows
Shows-entry jobs [] (p ∷ passed) c rest v shows = absurd shows
Shows-entry jobs (id ∷ ids) [] c rest v shows =
    let (j, at, e) = shows.0 in
    let same : c.id ≡ id = ap (λ (q : QueuedJob). q.id) e ∙ v.ids id j at in
    (
      j,
      ap (get_elem? jobs) same ∙ at,
      ap (λ (q : QueuedJob). q.request) e,
      omega (arith, listed c.id id same),
    )
Shows-entry jobs (id ∷ ids) (p ∷ passed) c rest v shows =
    let (j, at, same, listed) = Shows-entry jobs ids passed c rest v shows.1 in
    (j, at, same, omega arith)

-- Erasing an id that is listed takes it out once and leaves the others.
pub record Erased (id : ℕ) (ids ids' : List ℕ) : Type 1 where
  pub sums : (g : ℕ → ℕ) → sum_of g ids ≡ g id + sum_of g ids'
  pub shorter : length ids ≡ suc (length ids')
  pub inside : (P : ℕ → Type 0) → All P ids → All P ids'

pub erase_lem :
    (id : ℕ) (ids : List ℕ)
    → 0 < count id ids
    → (ids' : List ℕ) × (erase id ids ≡ some ids') × Erased id ids ids'
unfolding erase
erase_lem id [] h = absurd (omega arith)
erase_lem id (x ∷ xs) h = elim (Bool-cases (x == id)) [
  | inl here ↦ (
    xs,
    rw here,
    record {
      sums = λ g. ap (λ k. g k + sum_of g xs) ((==_iff x id).0 here);
      shorter = refl;
      inside = λ P all. all.1;
    },
  )
  | inr other ↦
      let (xs', e, r) = erase_lem id xs (ground arith) in
      (
        x ∷ xs',
        rw (other, e) refl,
        record {
          sums = λ g. omega (arith, r.sums g);
          shorter = ap suc r.shorter;
          inside = λ P all. (all.0, r.inside P all.1);
        },
      )
]
