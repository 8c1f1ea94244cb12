-- ===== src/Engine/Board/Capacity.antt =====
-- No node is ever granted more than it has.
use atlas_simulator.Prelude.{
  ℕ, zero, suc, ◌+◌, ◌≤◌, ◌≡◌, ap, sym, ◌∙◌, ◌≢◌, List, [], ◌∷◌, some, arith, get_elem?, set,
  get_elem?-unique,
}
use native.Mathlib.Decide.{ℕ_discrete}
use atlas_simulator.Model.Types.{Resources, Job}
use atlas_simulator.Engine.Board.{
  Place, waiting, on, finished, Board, Rules, share, load, cores_in, memory_in, Step, pass, begin,
  end, Steps, still, more,
}

-- One place changes, and with it the load by the difference.
pub load-set :
    (g : Resources → ℕ) (k : ℕ) (js : List Job) (ps : List Place) (id : ℕ) (j : Job) (p p' : Place)
    → get_elem? js id ≡ some j
    → get_elem? ps id ≡ some p
    → load g k js (set ps id p') + share g k j p ≡ load g k js ps + share g k j p'
load-set g k [] ps id j p p' at there = cc
load-set g k (x ∷ js) [] id j p p' at there = cc
load-set g k (x ∷ js) (q ∷ ps) zero j p p' at there =
    let same : x ≡ j = cc in let here : q ≡ p = cc in rw (same, here) (omega arith)
load-set g k (x ∷ js) (q ∷ ps) (suc id) j p p' at there =
    omega (arith, load-set g k js ps id j p p' at there)

granted :
    (g : Resources → ℕ) (k node : ℕ) (j : Job) (since : ℕ)
    → node ≡ k
    → share g k j (on node since) ≡ g j.request
granted g k node j since same = ground arith

not_granted :
    (g : Resources → ℕ) (k node : ℕ) (j : Job) (since : ℕ)
    → node ≢ k
    → share g k j (on node since) ≡ 0
not_granted g k node j since other = ground arith

abbrev pub IsWithin : Rules → Board → Type 0
IsWithin r b =
    (k : ℕ) (capacity : Resources)
    → get_elem? r.capacities k ≡ some capacity
    → (load cores_in k r.jobs b.places ≤ capacity.cores)
      × (load memory_in k r.jobs b.places ≤ capacity.memory_mb)

Step-IsWithin : (r : Rules) (b b' : Board) → Step r b b' → IsWithin r b → IsWithin r b'
Step-IsWithin r b b' (pass le due same) w = λ k capacity at. rw same (w k capacity at)
Step-IsWithin r b b' (begin id node j room at waits there submitted cores memory now placed) w =
    λ k capacity at'.
      let change : (g : Resources → ℕ)
          → load g k r.jobs b'.places ≡ load g k r.jobs b.places + share g k j (on node b.clock) =
        λ g.
          ap (load g k r.jobs) placed
          ∙ (omega (arith, load-set g k r.jobs b.places id j waiting (on node b.clock) at waits)) in
      elim (ℕ_discrete node k) [
        | yes same ↦
            let fits : room ≡ capacity =
              get_elem?-unique r.capacities k node (sym same) at' there in
            let here : (g : Resources → ℕ) → share g k j (on node b.clock) ≡ g j.request =
              λ g. granted g k node j b.clock same in
            (
              omega (
                arith,
                change cores_in,
                here cores_in,
                ap (λ x. load cores_in x r.jobs b.places) same,
                cores,
                ap cores_in fits,
              ),
              omega (
                arith,
                change memory_in,
                here memory_in,
                ap (λ x. load memory_in x r.jobs b.places) same,
                memory,
                ap memory_in fits,
              ),
            )
        | no other ↦
            let here : (g : Resources → ℕ) → share g k j (on node b.clock) ≡ 0 =
              λ g. not_granted g k node j b.clock other in
            (
              omega (arith, change cores_in, here cores_in, w k capacity at'),
              omega (arith, change memory_in, here memory_in, w k capacity at'),
            )
      ]
Step-IsWithin r b b' (end id node since j at held due now placed) w = λ k capacity at'.
    let change : (g : Resources → ℕ)
        → load g k r.jobs b'.places + share g k j (on node since) ≡ load g k r.jobs b.places =
      λ g.
        ap (λ ps. load g k r.jobs ps + share g k j (on node since)) placed
        ∙ (omega (arith, load-set g k r.jobs b.places id j (on node since) finished at held)) in
    (
      omega (arith, change cores_in, w k capacity at'),
      omega (arith, change memory_in, w k capacity at'),
    )

-- The board `t` is reached from another, and every board on the way is within the capacities.
pub data Course (r : Rules) (t : Board) : Board → Type 0 where
  over : IsWithin r t → Course r t t
  next : (b b' : Board) → IsWithin r b → Step r b b' → Course r t b' → Course r t b

pub Steps-Course : (r : Rules) (t b : Board) → Steps r t b → IsWithin r b → Course r t b
Steps-Course r t b still w = over w
Steps-Course r t b (more _ b' step p) w =
    next b b' w step (Steps-Course r t b' p (Step-IsWithin r b b' step w))
