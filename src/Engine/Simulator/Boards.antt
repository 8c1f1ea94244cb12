-- ===== src/Engine/Simulator/Boards.antt =====
-- The board that a state of src/atlas/engine/simulator.hpp stands for, and the steps on it that a
-- start, a finish and the passing of time are.
use atlas_simulator.Prelude.{
  ℕ, zero, suc, ◌+◌, ◌≤◌, ◌<◌, ◌≡◌, refl, ap, sym, ◌∙◌, true, List, [], ◌∷◌, Option, none, some,
  arith, sum_of, get_elem?, set, map, ◌==◌, if◌then◌else◌,
}
use atlas_simulator.Model.Types.{
  Resources, Node, Job, JobState, queued, running as is_on_node, done, never, can_fit,
}
use atlas_simulator.Engine.Events.{Event}
use atlas_simulator.Engine.Board.{
  Place, waiting, on, finished, Board, Rules, share, load, cores_in, memory_in, Step, pass, begin,
  end,
}
use atlas_simulator.Engine.Simulator.{start_job}
use atlas_simulator.Engine.Simulator.Ledger.{
  count, finishes, part, on_node, Phase, Counts, NodesInv,
}
use atlas_simulator.Engine.Simulator.Held.{val, look, look_at, look-sum, held_by, Phase-count}
use atlas_simulator.Engine.Simulator.Times.{due}

-- A job without what the simulator writes to it.
abbrev pub spec_of : Job → Job
spec_of j = record j { start_time = never; finish_time = never; node = 0; state = queued }

abbrev pub capacity_of : Node → Resources
capacity_of n = n.capacity

abbrev pub placed : JobState → ℕ → ℕ → Place
placed queued node since = waiting
placed is_on_node node since = on node since
placed done node since = finished

abbrev pub place_of : Job → Place
place_of j = placed j.state j.node j.start_time

abbrev pub board : ℕ → List Job → Board
board now jobs = record { clock = now; places = map place_of jobs }

abbrev pub rules : List Job → List Node → Rules
rules jobs nodes = record { jobs = map spec_of jobs; capacities = map capacity_of nodes }

get_elem?-map :
    {A B : Type 0} (f : A → B) (xs : List A) (i : ℕ) (x : A)
    → get_elem? xs i ≡ some x
    → get_elem? (map f xs) i ≡ some (f x)
get_elem?-map f [] i x at = cc
get_elem?-map f (y ∷ xs) zero x at = let same : y ≡ x = cc in ap (λ z. some (f z)) same
get_elem?-map f (y ∷ xs) (suc i) x at = get_elem?-map f xs i x at

map-set :
    {A B : Type 0} (f : A → B) (xs : List A) (i : ℕ) (x : A)
    → map f (set xs i x) ≡ set (map f xs) i (f x)
map-set f [] i x = refl
map-set f (y ∷ xs) zero x = refl
map-set f (y ∷ xs) (suc i) x = ap (◌∷◌ (f y)) (map-set f xs i x)

-- What a job holds of node `k`, if it runs.
abbrev at_node : (Resources → ℕ) → ℕ → Job → ℕ
at_node g k j = if j.node == k then g j.request else 0

share-held :
    (g : Resources → ℕ) (k : ℕ) (j : Job) (state : JobState)
    → j.state ≡ state
    → share g k (spec_of j) (placed state j.node j.start_time) ≡ held_by (at_node g k) j
share-held g k j queued e = rw e (omega arith)
share-held g k j is_on_node e = rw e (omega arith)
share-held g k j done e = rw e (omega arith)

load-held :
    (g : Resources → ℕ) (k : ℕ) (js : List Job)
    → load g k (map spec_of js) (map place_of js) ≡ sum_of (held_by (at_node g k)) js
load-held g k [] = refl
load-held g k (j ∷ js) = omega (arith, share-held g k j j.state refl, load-held g k js)

part-val :
    (g : Resources → ℕ) (k : ℕ) (o : Option Job) → part (λ j. g j.request) k o ≡ val (at_node g k) o
part-val g k none = refl
part-val g k (some j) = refl

-- The load of a node is what its running jobs hold.
load-on :
    (g : Resources → ℕ) (k : ℕ) (jobs : List Job) (pend runs : List ℕ) (heap : List Event)
    → Counts jobs pend runs heap
    → load g k (map spec_of jobs) (map place_of jobs)
      ≡ sum_of (on_node (λ j. g j.request) k jobs) runs
load-on g k jobs pend runs heap v =
    let from : (id : ℕ) → 0 + id ≡ id = λ id. omega arith in
    load-held g k jobs
    ∙ sym (
        look-sum (at_node g k) jobs 0 runs (λ i j at.
          ap (λ y. count y runs) (from i) ∙ Phase-count j j.state _ _ _ _ refl (v.phases i j at)))
    ∙ sums runs
  where
    sums :
        (ids : List ℕ)
        → sum_of (look (at_node g k) jobs 0) ids ≡ sum_of (on_node (λ j. g j.request) k jobs) ids
    sums [] = refl
    sums (id ∷ rest) =
        let first : id ≡ 0 + id = omega arith in
        omega (
          arith,
          ap (look (at_node g k) jobs 0) first,
          look_at (at_node g k) jobs 0 id,
          part-val g k (get_elem? jobs id),
          sums rest,
        )

-- A start.
pub start-Step :
    (now : ℕ) (jobs : List Job) (nodes : List Node) (pend on_nodes : List ℕ) (heap : List Event)
    (id : ℕ) (j : Job) (node : ℕ) (n : Node)
    → get_elem? jobs id ≡ some j
    → j.state ≡ queued
    → get_elem? nodes node ≡ some n
    → can_fit n j.request ≡ true
    → j.submit_time ≤ now
    → Counts jobs pend on_nodes heap
    → NodesInv nodes jobs on_nodes
    → Step (rules jobs nodes) (board now jobs) (board now (set jobs id (start_job j now node)))
unfolding can_fit
start-Step now jobs nodes pend on_nodes heap id j node n at waits there fits submitted counts
      nodes_inv =
    let b = nodes_inv.books node n there in
    let cores : j.request.cores ≤ n.free.cores = ground arith in
    let memory : j.request.memory_mb ≤ n.free.memory_mb = ground arith in
    begin id node (spec_of j) n.capacity (get_elem?-map spec_of jobs id j at)
      (get_elem?-map place_of jobs id j at
        ∙ ap (λ state. some (placed state j.node j.start_time)) waits)
      (get_elem?-map capacity_of nodes node n there) submitted
      (omega (arith, load-on cores_in node jobs pend on_nodes heap counts, b.cores, cores))
      (omega (arith, load-on memory_in node jobs pend on_nodes heap counts, b.memory, memory)) refl
      (map-set place_of jobs id (start_job j now node))

-- A finish.
pub finish-Step :
    (now : ℕ) (jobs : List Job) (nodes : List Node) (id : ℕ) (j : Job)
    → get_elem? jobs id ≡ some j
    → j.state ≡ is_on_node
    → now ≡ j.start_time + j.duration
    → Step
        (rules jobs nodes)
        (board now jobs)
        (board now (set jobs id (record j { finish_time = now; state = done })))
finish-Step now jobs nodes id j at runs ends =
    end id j.node j.start_time (spec_of j) (get_elem?-map spec_of jobs id j at)
      (get_elem?-map place_of jobs id j at
        ∙ ap (λ state. some (placed state j.node j.start_time)) runs)
      ends refl (map-set place_of jobs id (record j { finish_time = now; state = done }))

get_elem?-unmap :
    {A B : Type 0} (f : A → B) (xs : List A) (i : ℕ) (y : B)
    → get_elem? (map f xs) i ≡ some y
    → (x : A) × (get_elem? xs i ≡ some x) × (f x ≡ y)
get_elem?-unmap f [] i y at = cc
get_elem?-unmap f (x ∷ xs) zero y at = (x, refl, cc)
get_elem?-unmap f (x ∷ xs) (suc i) y at = get_elem?-unmap f xs i y at

placed_on :
    (state : JobState) (node since k from : ℕ)
    → placed state node since ≡ on k from
    → (state ≡ is_on_node) × (since ≡ from)
placed_on queued node since k from e = absurd (cc (e))
placed_on is_on_node node since k from e = (refl, cc)
placed_on done node since k from e = absurd (cc (e))

Phase-ends : (state : JobState) (a w o f : ℕ) → state ≡ is_on_node → Phase state a w o f → 0 < f
Phase-ends queued a w o f e p = absurd (cc (e))
Phase-ends is_on_node a w o f e p = omega arith
Phase-ends done a w o f e p = absurd (cc (e))

-- Time passes, to before the end of any service.
pub pass-Step :
    (now time : ℕ) (jobs : List Job) (nodes : List Node) (pend on_nodes : List ℕ)
    (heap : List Event)
    → now ≤ time
    → ((id : ℕ) (j : Job)
        → get_elem? jobs id ≡ some j
        → 0 < finishes id heap
        → time ≤ j.start_time + j.duration)
    → Counts jobs pend on_nodes heap
    → Step (rules jobs nodes) (board now jobs) (board time jobs)
pass-Step now time jobs nodes pend on_nodes heap le due counts =
    pass le
      (λ id node since i at there.
        let (j, at', same) = get_elem?-unmap spec_of jobs id i at in
        let (j', at'', lies) = get_elem?-unmap place_of jobs id (on node since) there in
        let one : j' ≡ j = cc (at', at'') in
        let (runs, from) =
          placed_on j.state j.node j.start_time node since (ap place_of (sym one) ∙ lies) in
        omega (
          arith,
          due id j at' (Phase-ends j.state _ _ _ _ runs (counts.phases id j at')),
          ap (λ (x : Job). x.duration) same,
          from,
        ))
      refl
