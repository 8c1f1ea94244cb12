-- ===== src/Sched/Queue/Reserve.antt =====
-- The head's reservation of src/atlas/sched/backfill.hpp, when a job behind the head starts.
use atlas_simulator.Prelude.{
  ℕ, zero, suc, ◌+◌, ◌≤◌, ◌<◌, ◌≡◌, refl, subst, sym, ◌∙◌, ◌≢◌, inl, inr, Bool, true, false, ◌&&◌,
  ◌||◌, List, [], ◌∷◌, ◌++◌, some, arith, leb→le, le→leb, ◌==◌, ==_iff, if◌then◌else◌, Bool-cases,
  sum_of, All-intro, All-get_elem?, get_elem?, set, get_elem?-set_cases, get_elem?-set_self,
  get_elem?-set_ne, get_elem?-lt, get_elem?-unique, add64, u32_mod,
}
use native.Mathlib.Nat.{le_refl}
use native.Mathlib.Decide.{ℕ_discrete}
use atlas_simulator.Model.Types.{Resources, Node, IsNode, can_fit, never}
use atlas_simulator.Model.Cluster.{take_from}
use atlas_simulator.Model.Cluster.Moves.{take_from_exact}
use atlas_simulator.Sched.Queue.Pick.{admissible}
use atlas_simulator.Sched.Queue.{QueuedJob, RunningJob, fits_anywhere, jobs_on, shadow_time}
use atlas_simulator.Sched.Queue.Shadow.{
  held_cores, held_memory, cores_by, memory_by, fits_by, some_fits_by, IsAccounted, AllAccounted,
  shadow_time-freed_by, shadow_time-le-never,
}

-- Node `i` has the id `i`.
abbrev pub HasDenseIds : List Node → Type 0
HasDenseIds nodes = (i : ℕ) (n : Node) → get_elem? nodes i ≡ some n → n.id ≡ i

-- `push_back` on the running jobs, as a node sees it.
sum_of-jobs_on-append :
    (f : RunningJob → ℕ) (k : ℕ) (rs : List RunningJob) (r : RunningJob)
    → sum_of f (jobs_on k (rs ++ r ∷ []))
      ≡ sum_of f (jobs_on k rs) + (if r.node == k then f r else 0)
unfolding jobs_on
sum_of-jobs_on-append f k [] r = ground arith
sum_of-jobs_on-append f k (x ∷ rs) r = ground (arith, sum_of-jobs_on-append f k rs r)

some_fits_by-found :
    (request : Resources) (ns : List Node) (running : List RunningJob) (t : ℕ)
    → some_fits_by request ns running t ≡ true
    → (j : ℕ) × (m : Node) × (get_elem? ns j ≡ some m)
      × (fits_by request m.free (jobs_on m.id running) t ≡ true)
some_fits_by-found request [] running t h = cc
some_fits_by-found request (n ∷ ns) running t h =
    elim (Bool-cases (fits_by request n.free (jobs_on n.id running) t)) [
      | inl here ↦ (0, n, refl, here)
      | inr later ↦
          let (j, m, at, found) = some_fits_by-found request ns running t (rw later at h) in
          (suc j, m, at, found)
    ]

and_left : (a b : Bool) → (a && b) ≡ true → a ≡ true
and_left a b h = ground arith

or_true : (b : Bool) → (b || true) ≡ true
or_true true = refl
or_true false = refl

some_fits_by-intro :
    (request : Resources) (ns : List Node) (running : List RunningJob) (t j : ℕ) (m : Node)
    → get_elem? ns j ≡ some m
    → fits_by request m.free (jobs_on m.id running) t ≡ true
    → some_fits_by request ns running t ≡ true
some_fits_by-intro request [] running t j m at h = cc
some_fits_by-intro request (n ∷ ns) running t zero m at h =
    let same : n ≡ m = cc in
    subst
      (λ x.
        (fits_by request x.free (jobs_on x.id running) t || some_fits_by request ns running t)
        ≡ true)
      (sym same) (rw h)
some_fits_by-intro request (n ∷ ns) running t (suc j) m at h =
    rw (some_fits_by-intro request ns running t j m at h) (or_true _)

fits_anywhere-set :
    (request : Resources) (ns : List Node) (i : ℕ) (m : Node)
    → fits_anywhere request ns ≡ false
    → can_fit m request ≡ false
    → fits_anywhere request (set ns i m) ≡ false
unfolding fits_anywhere
fits_anywhere-set request [] i m h k = refl
fits_anywhere-set request (n ∷ ns) zero m h k = ground arith
fits_anywhere-set request (n ∷ ns) (suc i) m h k = ground (arith, fits_anywhere-set request ns i m)

fits_anywhere-false :
    (request : Resources) (ns : List Node) (i : ℕ) (n : Node)
    → fits_anywhere request ns ≡ false
    → get_elem? ns i ≡ some n
    → can_fit n request ≡ false
unfolding fits_anywhere
fits_anywhere-false request [] i n h at = cc
fits_anywhere-false request (x ∷ ns) zero n h at =
    let same : x ≡ n = cc in subst (λ m. can_fit m request ≡ false) same (ground arith)
fits_anywhere-false request (x ∷ ns) (suc i) n h at =
    fits_anywhere-false request ns i n (ground arith) at

-- `request` started on the node `n` at index `i`, predicted to end at `finish`.
module _ (nodes : List Node) (running : List RunningJob) (i : ℕ) (n : Node) (id : ℕ)
    (request : Resources) (finish : ℕ) where
  abbrev pub started : RunningJob
  started = record { id = id; node = i; held = request; estimated_finish = finish }

  abbrev pub nodes_after : List Node
  nodes_after = set nodes i (take_from n request)

  abbrev pub running_after : List RunningJob
  running_after = running ++ started ∷ []

  -- The start is one that the simulator makes: the node is there and can take the request.
  pub record IsStart : Type 0 where
    pub dense : HasDenseIds nodes
    pub at : get_elem? nodes i ≡ some n
    pub is_node : IsNode n
    pub room : n.running_jobs + 1 < u32_mod
    pub can : can_fit n request ≡ true

  module _ (v : IsStart) where
    jobs_here :
        (f : RunningJob → ℕ)
        → sum_of f (jobs_on n.id running_after) ≡ sum_of f (jobs_on n.id running) + f started
    jobs_here f =
        rw (sum_of-jobs_on-append f n.id running started, v.dense i n v.at, (==_iff i i).1 refl)
          refl

    jobs_elsewhere :
        (f : RunningJob → ℕ) (k : ℕ)
        → i ≢ k
        → sum_of f (jobs_on k running_after) ≡ sum_of f (jobs_on k running)
    jobs_elsewhere f k other = ground (arith, sum_of-jobs_on-append f k running started)

    fits_by-here :
        (head : Resources) (t : ℕ)
        → finish ≤ t
        → fits_by head n.free (jobs_on n.id running) t ≡ true
        → fits_by head (take_from n request).free (jobs_on (take_from n request).id running_after) t
          ≡ true
    unfolding can_fit
    fits_by-here head t le h =
        rw (take_from_exact n request v.is_node v.can v.room)
          (ground (arith, jobs_here (cores_by t), jobs_here (memory_by t)))

    fits_by-elsewhere :
        (head : Resources) (m : Node) (j t : ℕ)
        → get_elem? nodes j ≡ some m
        → i ≢ j
        → fits_by head m.free (jobs_on m.id running) t ≡ true
        → fits_by head m.free (jobs_on m.id running_after) t ≡ true
    fits_by-elsewhere head m j t at other h =
        let away : i ≢ m.id = λ e. other (e ∙ v.dense j m at) in
        rw (jobs_elsewhere (cores_by t) m.id away, jobs_elsewhere (memory_by t) m.id away) h

    some_fits_by-after :
        (head : Resources) (t : ℕ)
        → finish ≤ t
        → some_fits_by head nodes running t ≡ true
        → some_fits_by head nodes_after running_after t ≡ true
    some_fits_by-after head t le h =
        let (j, m, at, found) = some_fits_by-found head nodes running t h in
        elim (ℕ_discrete i j) [
          | yes here ↦
              let same : m ≡ n = get_elem?-unique nodes i j here v.at at in
              some_fits_by-intro head nodes_after running_after t i (take_from n request)
                (get_elem?-set_self nodes i _ (get_elem?-lt nodes i v.at))
                (fits_by-here head t le
                  (subst (λ x. fits_by head x.free (jobs_on x.id running) t ≡ true) same found))
          | no other ↦
              some_fits_by-intro head nodes_after running_after t j m
                (get_elem?-set_ne nodes i j _ other ∙ at)
                (fits_by-elsewhere head m j t at other found)
        ]

    tight-after :
        (head : Resources) → can_fit n head ≡ false → can_fit (take_from n request) head ≡ false
    unfolding can_fit
    tight-after head h = rw (take_from_exact n request v.is_node v.can v.room) (ground arith)

    IsAccounted-here :
        IsAccounted n.free (jobs_on n.id running)
        → IsAccounted (take_from n request).free (jobs_on (take_from n request).id running_after)
    unfolding can_fit
    IsAccounted-here a =
        rw (take_from_exact n request v.is_node v.can v.room)
          (ground (arith, jobs_here held_cores, jobs_here held_memory))

    -- The start keeps the sums of what is free and what is held within their types.
    pub AllAccounted-after : AllAccounted nodes running → AllAccounted nodes_after running_after
    AllAccounted-after a = All-intro _ nodes_after λ j m at.
        elim (get_elem?-set_cases nodes i j _ m at) [
          | inl (same, new) ↦ rw new (IsAccounted-here (All-get_elem? _ nodes i a v.at))
          | inr (other, old) ↦
              let away : i ≢ m.id = λ e. other (sym (v.dense j m old) ∙ sym e) in
              let before : IsAccounted m.free (jobs_on m.id running) =
                All-get_elem? _ nodes j a old in
              omega
                (arith, jobs_elsewhere held_cores m.id away, jobs_elsewhere held_memory m.id away)
        ]

    -- A blocked head stays blocked.
    blocked-after :
        (head : Resources)
        → fits_anywhere head nodes ≡ false
        → fits_anywhere head nodes_after ≡ false
    blocked-after head blocked =
        fits_anywhere-set head nodes i (take_from n request) blocked
          (tight-after head (fits_anywhere-false head nodes i n blocked v.at))

    shadow_time-after :
        (head : Resources) (now : ℕ)
        → fits_anywhere head nodes ≡ false
        → AllAccounted nodes running
        → shadow_time head nodes running now ≢ never
        → finish ≤ shadow_time head nodes running now
        → shadow_time head nodes_after running_after now ≤ shadow_time head nodes running now
    shadow_time-after head now blocked a ready le =
        let shadow = shadow_time head nodes running now in
        let below : shadow < never =
          omega (arith, shadow_time-le-never head nodes running now blocked a) in
        let old : some_fits_by head nodes running shadow ≡ true =
          sym (shadow_time-freed_by head nodes running now shadow a below ∙ rw blocked)
          ∙ le→leb _ _ (le_refl _) in
        leb→le _ _ (
          shadow_time-freed_by head nodes_after running_after now shadow (AllAccounted-after a)
            below
          ∙ rw (blocked-after head blocked) (some_fits_by-after head shadow le old))

-- A job that backfill admits for a blocked head, once it is started on any node that can take it,
-- leaves the head's reservation where it was or earlier. The nodes have their indices for ids,
-- on each of them what is free and held stays within 32 and 64 bits, and the reservation is set.
pub shadow_time-backfill :
    (head candidate : QueuedJob) (nodes : List Node) (running : List RunningJob) (now i : ℕ)
    (n : Node)
    → fits_anywhere head.request nodes ≡ false
    → AllAccounted nodes running
    → shadow_time head.request nodes running now ≢ never
    → admissible nodes now (shadow_time head.request nodes running now) candidate ≡ true
    → (v : IsStart nodes running i n candidate.id candidate.request
        (add64 now candidate.estimated_duration))
    → shadow_time head.request
        (nodes_after nodes running i n candidate.id candidate.request
          (add64 now candidate.estimated_duration))
        (running_after nodes running i n candidate.id candidate.request
          (add64 now candidate.estimated_duration))
        now
      ≤ shadow_time head.request nodes running now
shadow_time-backfill head candidate nodes running now i n blocked a ready admitted v =
    shadow_time-after nodes running i n candidate.id candidate.request
      (add64 now candidate.estimated_duration) v head.request now blocked a ready
      (leb→le _ _ (and_left _ _ admitted))
