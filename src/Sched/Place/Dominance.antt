-- ===== src/Sched/Place/Dominance.antt =====
-- What least_loaded.cpp and resource_aware.cpp choose, in the shares of each node's own resources.
use atlas_simulator.Prelude.{
  ℕ, ◌≡◌, subst, Bool, true, false, List, [], ◌∷◌, ◌++◌, Option, none, some, arith, All,
}
use atlas_simulator.Model.Types.{Resources, Node, Job, can_fit}
use atlas_simulator.Sched.Place.{
  DominantShare, least_loaded, resource_aware, share_lt, share_before, share_after, place,
}
use atlas_simulator.Sched.Place.Contract.{Refused}
use atlas_simulator.Sched.Place.Choice.{
  IsModest, Chooses, least_loaded-Chooses, resource_aware-Chooses,
}
use atlas_simulator.Sched.Place.Tops.{
  Less, NoMore, HasFree, nothing, share_before_lem, share_after_lem, Less_lem, NoMore_lem,
}

-- The id is that of a node with room, `better` than those before it that have room, and `as_good`
-- as those after it.
pub record IsFirst (better as_good : Node → Node → Type 0) (request : Resources) (nodes : List Node)
    (id : ℕ) : Type 0 where
  pub before : List Node
  pub chosen : Node
  pub after : List Node
  pub split : nodes ≡ before ++ chosen ∷ after
  pub named : chosen.id ≡ id
  pub fits : HasFree request chosen
  pub ahead : All (λ n. HasFree request n → better chosen n) before
  pub unbeaten : All (λ n. HasFree request n → as_good chosen n) after

abbrev pub Prefers :
    (better as_good : Node → Node → Type 0) → Resources → List Node → Option ℕ → Type 0
Prefers better as_good request nodes none = All (λ n. ¬ HasFree request n) nodes
Prefers better as_good request nodes (some id) = IsFirst better as_good request nodes id

HasFree-can_fit : (request : Resources) (n : Node) → HasFree request n → can_fit n request ≡ true
unfolding can_fit
HasFree-can_fit request n (cores, memory) = ground (arith, cores, memory)

can_fit-HasFree : (request : Resources) (n : Node) → can_fit n request ≡ true → HasFree request n
unfolding can_fit
can_fit-HasFree request n fit = ground (arith, fit)

Refused-HasFree :
    (request : Resources) (ns : List Node) → Refused request ns → All (λ n. ¬ HasFree request n) ns
Refused-HasFree request [] v = tt
Refused-HasFree request (n ∷ ns) v = (
  λ free. let fit = HasFree-can_fit request n free in let tight = v.0 in cc,
  Refused-HasFree request ns v.1,
)

-- What holds of the modest nodes of a list that can take the request holds of those with room.
All-HasFree :
    (request : Resources) (P Q : Node → Type 0) (ns : List Node)
    → ((n : Node) → IsModest n → HasFree request n → P n → Q n)
    → All IsModest ns
    → All (λ n. can_fit n request ≡ true → P n) ns
    → All (λ n. HasFree request n → Q n) ns
All-HasFree request P Q [] f v h = tt
All-HasFree request P Q (n ∷ ns) f v h = (
  λ free. f n v.0 free (h.0 (HasFree-can_fit request n free)),
  All-HasFree request P Q ns f v.1 h.1,
)

All-before :
    (P : Node → Type 0) (before : List Node) (n : Node) (after : List Node)
    → All P (before ++ n ∷ after)
    → All P before × P n × All P after
All-before P [] n after v = (tt, v.0, v.1)
All-before P (x ∷ before) n after v =
    let (first, chosen, rest) = All-before P before n after v.1 in ((v.0, first), chosen, rest)

module _ (better : DominantShare → DominantShare → Bool) (score : Node → DominantShare)
    (ahead as_good : Node → Node → Type 0) (request : Resources)
    (over : (m n : Node)
      → IsModest m
      → IsModest n
      → HasFree request m
      → HasFree request n
      → better (score m) (score n) ≡ true
      → ahead m n)
    (level : (m n : Node)
      → IsModest m
      → IsModest n
      → HasFree request m
      → HasFree request n
      → better (score n) (score m) ≡ false
      → as_good m n) where
  Chooses-Prefers :
      (nodes : List Node) (r : Option ℕ)
      → All IsModest nodes
      → Chooses better score request nodes r
      → Prefers ahead as_good request nodes r
  Chooses-Prefers nodes none v c = Refused-HasFree request nodes c
  Chooses-Prefers nodes (some id) v best =
      let (first, chosen, rest) =
        All-before IsModest best.before best.chosen best.after
          (subst (All IsModest) best.split v) in
      let free = can_fit-HasFree request best.chosen best.fits in
      record {
        before = best.before;
        chosen = best.chosen;
        after = best.after;
        split = best.split;
        named = best.named;
        fits = free;
        ahead =
            All-HasFree request _ _ best.before (λ n m room. over best.chosen n chosen m free room)
              first best.beats;
        unbeaten =
            All-HasFree request _ _ best.after (λ n m room. level best.chosen n chosen m free room)
              rest best.unbeaten;
      }

free_nothing : (n : Node) → HasFree nothing n
free_nothing n = (omega arith, omega arith)

-- On nodes with some of each resource and capacities below 2^32, least_loaded answers with the
-- first node, among those with the cores and the memory free, whose greater share of a resource in
-- use is least, and with none only if no node has both free.
pub least_loaded-Prefers :
    (job : Job) (nodes : List Node)
    → All IsModest nodes
    → (r : Option ℕ) × (place least_loaded job nodes ≡ some (r, least_loaded))
      × Prefers (Less nothing) (NoMore nothing) job.request nodes r
least_loaded-Prefers job nodes v =
    let (r, placed, best) = least_loaded-Chooses job nodes v in
    (
      r,
      placed,
      Chooses-Prefers share_lt share_before (Less nothing) (NoMore nothing) job.request
          (λ m n a b h k.
            Less_lem nothing share_before m n a b (free_nothing m) (free_nothing n)
              (share_before_lem m a) (share_before_lem n b))
          (λ m n a b h k.
            NoMore_lem nothing share_before m n a b (free_nothing m) (free_nothing n)
              (share_before_lem m a) (share_before_lem n b))
          nodes r v best,
    )

-- On such nodes resource_aware answers with the first node, among those with the cores and the
-- memory free, whose greater share of a resource in use, with the job's request added to both, is
-- greatest, and with none only if no node has both free.
pub resource_aware-Prefers :
    (job : Job) (nodes : List Node)
    → All IsModest nodes
    → (r : Option ℕ) × (place resource_aware job nodes ≡ some (r, resource_aware))
      × Prefers (λ m n. Less job.request n m) (λ m n. NoMore job.request n m) job.request nodes r
resource_aware-Prefers job nodes v =
    let (r, placed, best) = resource_aware-Chooses job nodes v in
    let request = job.request in
    (
      r,
      placed,
      Chooses-Prefers (λ a b. share_lt b a) (share_after request) (λ m n. Less request n m)
          (λ m n. NoMore request n m) request
          (λ m n a b h k.
            Less_lem request (share_after request) n m b a k h (share_after_lem request n b k)
              (share_after_lem request m a h))
          (λ m n a b h k.
            NoMore_lem request (share_after request) n m b a k h (share_after_lem request n b k)
              (share_after_lem request m a h))
          nodes r v best,
    )
