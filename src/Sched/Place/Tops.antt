-- ===== src/Sched/Place/Tops.antt =====
-- The greater of the two shares of a node that dominant_share.hpp takes, in the node's own
-- resources, as least_loaded.cpp and resource_aware.cpp compare it.
use atlas_simulator.Prelude.{
  ℕ, ◌+◌, ◌-◌, ◌*◌, ◌≤◌, ◌<◌, ◌≡◌, refl, subst, ap, ◌⊎◌, inl, inr, true, false, arith, Bool-cases,
  ltb, ltb→lt, not_ltb→le, sub32_exact, sub64_exact, add32_exact, add64_exact,
}
use atlas_simulator.Model.Types.{Resources, Node}
use atlas_simulator.Sched.Place.{DominantShare, share_lt, dominant_share, share_before, share_after}
use atlas_simulator.Sched.Place.Share.{
  IsShare, share_lt_exact, lt_le_fractions, le_lt_fractions, dominant_share_lem,
  dominant_share-IsShare,
}
use atlas_simulator.Sched.Place.Choice.{IsModest}

-- Shares as pairs of a number and the capacity it is of, compared by cross multiplication.
abbrev pub AtMost : ℕ × ℕ → ℕ × ℕ → Type 0
AtMost a b = a.0 * b.1 ≤ b.0 * a.1

abbrev pub Below : ℕ × ℕ → ℕ × ℕ → Type 0
Below a b = a.0 * b.1 < b.0 * a.1

-- The shares of a node's cores and memory that are not free, with `extra` on top.
abbrev pub cores_share : Resources → Node → ℕ × ℕ
cores_share extra n = ((n.capacity.cores - n.free.cores) + extra.cores, n.capacity.cores)

abbrev pub memory_share : Resources → Node → ℕ × ℕ
memory_share extra n =
    ((n.capacity.memory_mb - n.free.memory_mb) + extra.memory_mb, n.capacity.memory_mb)

-- One share of the second node exceeds both shares of the first: the greater share of the first
-- is below that of the second.
abbrev pub Less : Resources → Node → Node → Type 0
Less extra m n =
    (Below (cores_share extra m) (cores_share extra n)
      × Below (memory_share extra m) (cores_share extra n))
    ⊎ (Below (cores_share extra m) (memory_share extra n)
        × Below (memory_share extra m) (memory_share extra n))

-- One share of the second node is no less than either share of the first.
abbrev pub NoMore : Resources → Node → Node → Type 0
NoMore extra m n =
    (AtMost (cores_share extra m) (cores_share extra n)
      × AtMost (memory_share extra m) (cores_share extra n))
    ⊎ (AtMost (cores_share extra m) (memory_share extra n)
        × AtMost (memory_share extra m) (memory_share extra n))

-- The node has the cores and the memory free.
abbrev pub HasFree : Resources → Node → Type 0
HasFree request n = (request.cores ≤ n.free.cores) × (request.memory_mb ≤ n.free.memory_mb)

abbrev pub nothing : Resources
nothing = record { cores = 0; memory_mb = 0 }

abbrev share_of : Resources → Node → DominantShare
share_of extra n =
    dominant_share
      (record {
        cores = (n.capacity.cores - n.free.cores) + extra.cores;
        memory_mb = (n.capacity.memory_mb - n.free.memory_mb) + extra.memory_mb;
      })
      n.capacity

abbrev pair : DominantShare → ℕ × ℕ
pair s = (s.used, s.capacity)

-- The dominant share is one of two shares, and no less than either.
record IsTop (c m : ℕ × ℕ) (s : DominantShare) : Type 0 where
  share : IsShare s
  over_cores : AtMost c (pair s)
  over_memory : AtMost m (pair s)
  one_of : (pair s ≡ c) ⊎ (pair s ≡ m)

share_of-IsTop :
    (extra : Resources) (n : Node)
    → IsModest n
    → HasFree extra n
    → IsTop (cores_share extra n) (memory_share extra n) (share_of extra n)
share_of-IsTop extra n m (cores, memory) =
    let v = m.is_node in
    let fit_cores = v.cores_fit in
    let fit_memory = v.memory_fit in
    let free_cores = v.free_cores in
    let free_memory = v.free_memory in
    let some_cores = m.some_cores in
    let some_memory = m.some_memory in
    let below = m.memory_below in
    let used : Resources = record {
      cores = (n.capacity.cores - n.free.cores) + extra.cores;
      memory_mb = (n.capacity.memory_mb - n.free.memory_mb) + extra.memory_mb;
    } in
    let (which, c, k) =
      dominant_share_lem used n.capacity
        (record {
          used_fits = omega arith;
          capacity_fits = omega arith;
          some_capacity = some_cores;
        })
        (record {
          used_fits = omega arith;
          capacity_fits = omega arith;
          some_capacity = some_memory;
        }) in
    record {
      share =
          dominant_share-IsShare used n.capacity (omega arith) (omega arith) some_cores some_memory
            (omega arith) (omega arith);
      over_cores = c;
      over_memory = k;
      one_of = elim which [ inl e ↦ inl (ap pair e) | inr e ↦ inr (ap pair e) ];
    }

at_most_fractions : (a p b q c r : ℕ) → 0 < q → a * q ≤ b * p → b * r ≤ c * q → a * r ≤ c * p
at_most_fractions a p b q c r pos h k = elim (Bool-cases (ltb (c * p) (a * r))) [
  | inr e ↦ not_ltb→le (c * p) (a * r) e
  | inl e ↦
      let over = lt_le_fractions c r a p b q pos (ltb→lt (c * p) (a * r) e) h in
      absurd (omega arith)
]

module _ (c m c' m' : ℕ × ℕ) (s t : DominantShare) (u : IsTop c m s) (v : IsTop c' m' t)
    (pos_cores : 0 < c.1) (pos_memory : 0 < m.1) where
  IsTop-Below : share_lt s t ≡ true → (Below c c' × Below m c') ⊎ (Below c m' × Below m m')
  IsTop-Below h =
      let less = ltb→lt _ _ (rw (share_lt_exact s t u.share v.share) at h) in
      let first : Below c (pair t) =
        le_lt_fractions c.0 c.1 s.used s.capacity t.used t.capacity pos_cores u.over_cores less in
      let second : Below m (pair t) =
        le_lt_fractions m.0 m.1 s.used s.capacity t.used t.capacity pos_memory u.over_memory less in
      elim v.one_of [
        | inl e ↦ inl (subst (Below c) e first, subst (Below m) e second)
        | inr e ↦ inr (subst (Below c) e first, subst (Below m) e second)
      ]

  IsTop-AtMost : share_lt t s ≡ false → (AtMost c c' × AtMost m c') ⊎ (AtMost c m' × AtMost m m')
  IsTop-AtMost h =
      let most = not_ltb→le _ _ (rw (share_lt_exact t s v.share u.share) at h) in
      let some_capacity = u.share.some_capacity in
      let first : AtMost c (pair t) =
        at_most_fractions c.0 c.1 s.used s.capacity t.used t.capacity some_capacity u.over_cores
          most in
      let second : AtMost m (pair t) =
        at_most_fractions m.0 m.1 s.used s.capacity t.used t.capacity some_capacity u.over_memory
          most in
      elim v.one_of [
        | inl e ↦ inl (subst (AtMost c) e first, subst (AtMost m) e second)
        | inr e ↦ inr (subst (AtMost c) e first, subst (AtMost m) e second)
      ]

pub share_before_lem : (n : Node) → IsModest n → share_before n ≡ share_of nothing n
unfolding share_before
share_before_lem n m =
    let v = m.is_node in
    let plain : (k : ℕ) → k + 0 ≡ k = λ k. omega arith in
    rw
      (
        sub32_exact n.capacity.cores n.free.cores v.free_cores v.cores_fit,
        sub64_exact n.capacity.memory_mb n.free.memory_mb v.free_memory v.memory_fit,
        plain (n.capacity.cores - n.free.cores),
        plain (n.capacity.memory_mb - n.free.memory_mb),
      )
      refl

pub share_after_lem :
    (request : Resources) (n : Node)
    → IsModest n
    → HasFree request n
    → share_after request n ≡ share_of request n
unfolding share_after
share_after_lem request n m (cores, memory) =
    let v = m.is_node in
    let cores_fit = v.cores_fit in
    let memory_fit = v.memory_fit in
    let free_cores = v.free_cores in
    let free_memory = v.free_memory in
    rw
      (
        sub32_exact n.capacity.cores n.free.cores v.free_cores v.cores_fit,
        sub64_exact n.capacity.memory_mb n.free.memory_mb v.free_memory v.memory_fit,
        add32_exact (n.capacity.cores - n.free.cores) request.cores (omega arith),
        add64_exact (n.capacity.memory_mb - n.free.memory_mb) request.memory_mb (omega arith),
      )
      refl

module _ (extra : Resources) (score : Node → DominantShare) (m n : Node) (modest : IsModest m)
    (modest' : IsModest n) (free : HasFree extra m) (free' : HasFree extra n)
    (scored : score m ≡ share_of extra m) (scored' : score n ≡ share_of extra n) where
  pub Less_lem : share_lt (score m) (score n) ≡ true → Less extra m n
  Less_lem h =
      IsTop-Below (cores_share extra m) (memory_share extra m) (cores_share extra n)
        (memory_share extra n) (share_of extra m) (share_of extra n)
        (share_of-IsTop extra m modest free) (share_of-IsTop extra n modest' free')
        modest.some_cores modest.some_memory (rw (scored, scored') at h)

  pub NoMore_lem : share_lt (score n) (score m) ≡ false → NoMore extra m n
  NoMore_lem h =
      IsTop-AtMost (cores_share extra m) (memory_share extra m) (cores_share extra n)
        (memory_share extra n) (share_of extra m) (share_of extra n)
        (share_of-IsTop extra m modest free) (share_of-IsTop extra n modest' free')
        modest.some_cores modest.some_memory (rw (scored, scored') at h)
