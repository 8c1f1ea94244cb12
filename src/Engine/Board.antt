-- ===== src/Engine/Board.antt =====
-- What a run of src/atlas/engine/simulator.cpp promises, without events, queues or counters of free
-- resources: jobs that wait, stand on a node from a time on, or have finished, under a clock.
pub mod Capacity
use atlas_simulator.Prelude.{
  ℕ, ◌+◌, ◌≤◌, ◌≡◌, List, [], ◌∷◌, some, ◌==◌, if◌then◌else◌, get_elem?, set,
}
use atlas_simulator.Model.Types.{Resources, Job}

pub data Place : Type 0 where
  waiting : Place
  on : (node since : ℕ) → Place
  finished : Place

pub record Board : Type 0 where
  pub clock : ℕ
  pub places : List Place

-- The jobs and the nodes, which no step changes.
pub record Rules : Type 0 where
  pub jobs : List Job
  pub capacities : List Resources

-- What the jobs on one node have been granted.
abbrev pub share : (Resources → ℕ) → ℕ → Job → Place → ℕ
share g k j waiting = 0
share g k j (on node since) = if node == k then g j.request else 0
share g k j finished = 0

abbrev pub load : (Resources → ℕ) → ℕ → List Job → List Place → ℕ
load g k [] ps = 0
load g k (j ∷ js) [] = 0
load g k (j ∷ js) (p ∷ ps) = share g k j p + load g k js ps

abbrev pub cores_in : Resources → ℕ
cores_in r = r.cores

abbrev pub memory_in : Resources → ℕ
memory_in r = r.memory_mb

-- Time passes until at most the end of a service. A job that was submitted begins on a node with
-- room for it, and ends there when it was served in full.
pub data Step (r : Rules) (b b' : Board) : Type 0 where
  pass :
      b.clock ≤ b'.clock
      → ((id node since : ℕ) (j : Job)
          → get_elem? r.jobs id ≡ some j
          → get_elem? b.places id ≡ some (on node since)
          → b'.clock ≤ since + j.duration)
      → b'.places ≡ b.places
      → Step r b b'
  begin :
      (id node : ℕ) (j : Job) (capacity : Resources)
      → get_elem? r.jobs id ≡ some j
      → get_elem? b.places id ≡ some waiting
      → get_elem? r.capacities node ≡ some capacity
      → j.submit_time ≤ b.clock
      → load cores_in node r.jobs b.places + j.request.cores ≤ capacity.cores
      → load memory_in node r.jobs b.places + j.request.memory_mb ≤ capacity.memory_mb
      → b'.clock ≡ b.clock
      → b'.places ≡ set b.places id (on node b.clock)
      → Step r b b'
  end :
      (id node since : ℕ) (j : Job)
      → get_elem? r.jobs id ≡ some j
      → get_elem? b.places id ≡ some (on node since)
      → b.clock ≡ since + j.duration
      → b'.clock ≡ b.clock
      → b'.places ≡ set b.places id finished
      → Step r b b'

-- The board `t` is reached by steps from another.
pub data Steps (r : Rules) (t : Board) : Board → Type 0 where
  still : Steps r t t
  more : (b b' : Board) → Step r b b' → Steps r t b' → Steps r t b

pub Steps-trans : (r : Rules) (u t : Board) (s : Board) → Steps r t s → Steps r u t → Steps r u s
Steps-trans r u t s still q = q
Steps-trans r u t s (more _ b' step p) q = more s b' step (Steps-trans r u t b' p q)
