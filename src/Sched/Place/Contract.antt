-- ===== src/Sched/Place/Contract.antt =====
-- The contract of `place` in src/atlas/sched/scheduler.hpp, stated of an answer.
use atlas_simulator.Prelude.{
  ℕ, suc, ◌≡◌, refl, inl, inr, true, false, List, [], ◌∷◌, Option, none, some, get_elem?, All,
  Bool-cases,
}
use atlas_simulator.Model.Types.{Resources, Node, can_fit}
use atlas_simulator.Sched.Place.{first_fit_place}

-- No node of the list can take the request.
abbrev pub Refused : Resources → List Node → Type 0
Refused request = All (λ n. can_fit n request ≡ false)

-- The id names a node of the list that can take the request.
pub record Fits (request : Resources) (nodes : List Node) (id : ℕ) : Type 0 where
  pub node : Node
  pub index : ℕ
  pub at : get_elem? nodes index ≡ some node
  pub named : node.id ≡ id
  pub fits : can_fit node request ≡ true

-- The answer names a node that fits, or there is no answer and no node fits.
abbrev pub Answers : Resources → List Node → Option ℕ → Type 0
Answers request nodes none = Refused request nodes
Answers request nodes (some id) = Fits request nodes id

pub Fits-cons :
    {request : Resources} {nodes : List Node} {id : ℕ} (n : Node)
    → Fits request nodes id
    → Fits request (n ∷ nodes) id
Fits-cons n f = record {
  node = f.node;
  index = suc f.index;
  at = f.at;
  named = f.named;
  fits = f.fits;
}

pub Answers-cons :
    (request : Resources) (n : Node) (ns : List Node) (r : Option ℕ)
    → can_fit n request ≡ false
    → Answers request ns r
    → Answers request (n ∷ ns) r
Answers-cons request n ns none tight a = (tight, a)
Answers-cons request n ns (some id) tight a = Fits-cons n a

pub first_fit-Answers :
    (request : Resources) (nodes : List Node)
    → Answers request nodes (first_fit_place request nodes)
unfolding first_fit_place
first_fit-Answers request [] = tt
first_fit-Answers request (n ∷ ns) = elim (Bool-cases (can_fit n request)) [
  | inl fit ↦ rw fit (record { node = n; index = 0; at = refl; named = refl; fits = fit })
  | inr tight ↦ rw tight (Answers-cons request n ns _ tight (first_fit-Answers request ns))
]
