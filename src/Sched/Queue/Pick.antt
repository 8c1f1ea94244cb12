-- ===== src/Sched/Queue/Pick.antt =====
-- What a policy may answer: the contract of src/atlas/sched/queue_policy.hpp, and the rule of
-- EASY backfill in backfill.cpp.
use atlas_simulator.Prelude.{
  ℕ, suc, ◌≤◌, ◌≡◌, refl, get_elem?, subst, ==_iff, ◌≢◌, ◌⊎◌, inl, inr, Bool, true, false, ◌&&◌,
  List, [], ◌∷◌, ◌++◌, Option, none, some, arith, leb, ltb, ◌==◌, Bool-cases, All, add64,
}
use native.Mathlib.Decide.{ℕ_discrete}
use atlas_simulator.Model.Types.{Resources, Node, can_fit, never}
use atlas_simulator.Sched.Queue.{
  QueuedJob, RunningJob, QueuePolicy, fifo, backfill, fits_anywhere, shadow_time, pick_candidate,
  easy_backfill, pick,
}

-- The job is predicted to be gone by `shadow`, and some node can take it now.
abbrev pub admissible : List Node → ℕ → ℕ → QueuedJob → Bool
admissible nodes now shadow j =
    leb (add64 now j.estimated_duration) shadow && fits_anywhere j.request nodes

-- The first admissible job of the list has this id.
pub record IsFirst (nodes : List Node) (now shadow : ℕ) (js : List QueuedJob) (id : ℕ)
    : Type 0 where
  pub passed : List QueuedJob
  pub candidate : QueuedJob
  pub rest : List QueuedJob
  pub split : js ≡ passed ++ candidate ∷ rest
  pub named : candidate.id ≡ id
  pub admitted : admissible nodes now shadow candidate ≡ true
  pub refused : All (λ j. admissible nodes now shadow j ≡ false) passed

abbrev pub FirstAdmissible : List Node → ℕ → ℕ → List QueuedJob → Option ℕ → Type 0
FirstAdmissible nodes now shadow js none = All (λ j. admissible nodes now shadow j ≡ false) js
FirstAdmissible nodes now shadow js (some id) = IsFirst nodes now shadow js id

FirstAdmissible-cons :
    (nodes : List Node) (now shadow : ℕ) (j : QueuedJob) (js : List QueuedJob) (r : Option ℕ)
    → admissible nodes now shadow j ≡ false
    → FirstAdmissible nodes now shadow js r
    → FirstAdmissible nodes now shadow (j ∷ js) r
FirstAdmissible-cons nodes now shadow j js none refused h = (refused, h)
FirstAdmissible-cons nodes now shadow j js (some id) refused h = record {
  passed = j ∷ h.passed;
  candidate = h.candidate;
  rest = h.rest;
  split = rw (← h.split);
  named = h.named;
  admitted = h.admitted;
  refused = (refused, h.refused);
}

pick_candidate_lem :
    (js : List QueuedJob) (nodes : List Node) (now shadow : ℕ)
    → FirstAdmissible nodes now shadow js (pick_candidate js nodes now shadow)
unfolding pick_candidate
pick_candidate_lem [] nodes now shadow = tt
pick_candidate_lem (j ∷ js) nodes now shadow =
    elim (Bool-cases (ltb shadow (add64 now j.estimated_duration))) [
      | inl late ↦ rw late (
          FirstAdmissible-cons nodes now shadow j js _ (ground arith)
            (pick_candidate_lem js nodes now shadow))
      | inr early ↦ elim (Bool-cases (fits_anywhere j.request nodes)) [
        | inr tight ↦
            rw (early, tight)
              (FirstAdmissible-cons nodes now shadow j js _ (ground arith)
                (pick_candidate_lem js nodes now shadow))
        | inl fit ↦
            rw (early, fit)
              (record {
                passed = [];
                candidate = j;
                rest = js;
                split = refl;
                named = refl;
                admitted = ground arith;
                refused = tt;
              })
      ]
    ]

-- What backfill answers for a backlog of this head and these jobs behind it.
abbrev pub Backfills :
    QueuedJob → List QueuedJob → List Node → List RunningJob → ℕ → Option ℕ → Type 0
Backfills head js nodes running now r =
    let shadow = shadow_time head.request nodes running now in
    ((shadow ≡ never) × (r ≡ none)) ⊎ ((shadow ≢ never) × FirstAdmissible nodes now shadow js r)

-- If the head's reservation is not set, backfill answers with none. Otherwise it answers with the
-- first job behind the head that is predicted to be gone by the reservation and that some node
-- can take now, and with none only if there is no such job.
pub easy_backfill-Backfills :
    (head : QueuedJob) (js : List QueuedJob) (nodes : List Node) (running : List RunningJob)
    (now : ℕ)
    → Backfills head js nodes running now (easy_backfill (head ∷ js) nodes running now)
unfolding easy_backfill
easy_backfill-Backfills head [] nodes running now =
    elim (ℕ_discrete (shadow_time head.request nodes running now) never) [
      | yes unset ↦ inl (unset, refl)
      | no ready ↦ inr (ready, tt)
    ]
easy_backfill-Backfills head (j ∷ js) nodes running now =
    let shadow = shadow_time head.request nodes running now in
    elim (Bool-cases (shadow == never)) [
      | inl unset ↦ inl ((==_iff _ _).0 unset, rw unset)
      | inr ready ↦ inr (
        (λ e. cc ((==_iff shadow never).1 e)),
        rw ready (pick_candidate_lem (j ∷ js) nodes now shadow),
      )
    ]

-- What the simulator relies on: the answer is the id of a job behind the head that some node can
-- take now.
pub record IsPick (js : List QueuedJob) (nodes : List Node) (id : ℕ) : Type 0 where
  pub passed : List QueuedJob
  pub candidate : QueuedJob
  pub rest : List QueuedJob
  pub split : js ≡ passed ++ candidate ∷ rest
  pub named : candidate.id ≡ id
  pub fits : fits_anywhere candidate.request nodes ≡ true
  pub index : ℕ
  pub node : Node
  pub at : get_elem? nodes index ≡ some node
  pub cores : candidate.request.cores ≤ node.free.cores
  pub memory : candidate.request.memory_mb ≤ node.free.memory_mb

-- A node that has what is asked for.
fits_anywhere-node :
    (request : Resources) (nodes : List Node)
    → fits_anywhere request nodes ≡ true
    → (i : ℕ) × (n : Node) × (get_elem? nodes i ≡ some n)
      × (request.cores ≤ n.free.cores)
      × (request.memory_mb ≤ n.free.memory_mb)
unfolding fits_anywhere can_fit
fits_anywhere-node request [] h = cc
fits_anywhere-node request (n ∷ ns) h = elim (Bool-cases (can_fit n request)) [
  | inl fit ↦ (0, n, refl, ground (arith, fit), ground (arith, fit))
  | inr tight ↦
      let (i, m, at, cores, memory) = fits_anywhere-node request ns (rw tight at h) in
      (suc i, m, at, cores, memory)
]

-- Whatever id a queue policy answers with, for a backlog that is not empty, is the id of a job
-- behind the head, and some node has the cores and the memory that it asks for free now.
pub pick-IsPick :
    (policy : QueuePolicy) (head : QueuedJob) (js : List QueuedJob) (nodes : List Node)
    (running : List RunningJob) (now : ℕ) {id : ℕ}
    → pick policy (head ∷ js) nodes running now ≡ some id
    → IsPick js nodes id
unfolding pick
pick-IsPick fifo head js nodes running now e = cc
pick-IsPick backfill head js nodes running now {id} e =
    elim (easy_backfill-Backfills head js nodes running now) [
      | inl (unset, nothing) ↦ cc
      | inr (ready, h) ↦
          let shadow = shadow_time head.request nodes running now in
          let first : IsFirst nodes now shadow js id =
            subst (FirstAdmissible nodes now shadow js) e h in
          let fits : fits_anywhere first.candidate.request nodes ≡ true =
            ground (arith, first.admitted) in
          let (index, node, at, cores, memory) =
            fits_anywhere-node first.candidate.request nodes fits in
          record {
            passed = first.passed;
            candidate = first.candidate;
            rest = first.rest;
            split = first.split;
            named = first.named;
            fits = fits;
            index = index;
            node = node;
            at = at;
            cores = cores;
            memory = memory;
          }
    ]
