-- ===== src/Sched/Place/Choice.antt =====
-- Which of the nodes that fit least_loaded.cpp and resource_aware.cpp choose.
use atlas_simulator.Prelude.{
  ℕ, ◌-◌, ◌≤◌, ◌<◌, ◌≡◌, refl, sym, subst, ◌⊎◌, inl, inr, Bool, true, false, List, [], ◌∷◌, ◌++◌,
  Option, none, some, arith, All, Bool-cases, u32_mod, sub32_exact, sub64_exact, add32_exact,
  add64_exact,
}
use atlas_simulator.Model.Types.{Resources, Node, Job, IsNode, can_fit}
use atlas_simulator.Sched.Place.{
  DominantShare, least_loaded, resource_aware, share_lt, share_before, share_after, place,
}
use atlas_simulator.Sched.Place.Contract.{Refused}
use atlas_simulator.Sched.Place.Best.{scan, least_loaded-scan, resource_aware-scan}
use atlas_simulator.Sched.Place.Share.{
  IsShare, IsOrder, less-IsOrder, more-IsOrder, dominant_share-IsShare,
}

module _ (better : DominantShare → DominantShare → Bool) (score : Node → DominantShare)
    (request : Resources) where
  -- No node of the list that fits has a better score.
  abbrev pub Unbeaten : DominantShare → List Node → Type 0
  Unbeaten s = All (λ n. can_fit n request ≡ true → better (score n) s ≡ false)

  -- Every node of the list that fits has a worse score.
  abbrev pub Beats : DominantShare → List Node → Type 0
  Beats s = All (λ n. can_fit n request ≡ true → better s (score n) ≡ true)

  -- The id is that of the first node with the best score among those that fit.
  pub record IsBest (nodes : List Node) (id : ℕ) : Type 0 where
    pub before : List Node
    pub chosen : Node
    pub after : List Node
    pub split : nodes ≡ before ++ chosen ∷ after
    pub named : chosen.id ≡ id
    pub fits : can_fit chosen request ≡ true
    pub beats : Beats (score chosen) before
    pub unbeaten : Unbeaten (score chosen) after

  abbrev pub Chooses : List Node → Option ℕ → Type 0
  Chooses nodes none = Refused request nodes
  Chooses nodes (some id) = IsBest nodes id

  -- A scan with a candidate keeps it, unbeaten, or ends with a node that beats it.
  record Ends (ns : List Node) (id : ℕ) (share : DominantShare) (r : Option ℕ) : Type 0 where
    chosen : ℕ
    answer : r ≡ some chosen
    why :
        ((chosen ≡ id) × Unbeaten share ns)
        ⊎ ((best : IsBest ns chosen) × (better (score best.chosen) share ≡ true))

  IsBest-cons :
      (n : Node) (ns : List Node) (id : ℕ) (best : IsBest ns id)
      → (can_fit n request ≡ true → better (score best.chosen) (score n) ≡ true)
      → IsBest (n ∷ ns) id
  IsBest-cons n ns id best h = record {
    before = n ∷ best.before;
    chosen = best.chosen;
    after = best.after;
    split = rw (← best.split);
    named = best.named;
    fits = best.fits;
    beats = (h, best.beats);
    unbeaten = best.unbeaten;
  }

  IsBest-head :
      (n : Node) (ns : List Node) (id : ℕ)
      → n.id ≡ id
      → can_fit n request ≡ true
      → Unbeaten (score n) ns
      → IsBest (n ∷ ns) id
  IsBest-head n ns id same fit h = record {
    before = [];
    chosen = n;
    after = ns;
    split = refl;
    named = same;
    fits = fit;
    beats = tt;
    unbeaten = h;
  }

  -- Every node that fits has a share of 32 bits for its score.
  abbrev pub Scored : List Node → Type 0
  Scored = All (λ n. can_fit n request ≡ true → IsShare (score n))

  chosen-IsShare :
      (before : List Node) (chosen : Node) (after : List Node)
      → Scored (before ++ chosen ∷ after)
      → can_fit chosen request ≡ true
      → IsShare (score chosen)
  chosen-IsShare [] chosen after v fit = v.0 fit
  chosen-IsShare (n ∷ before) chosen after v fit = chosen-IsShare before chosen after v.1 fit

  best-IsShare :
      (ns : List Node) (id : ℕ) (best : IsBest ns id) → Scored ns → IsShare (score best.chosen)
  best-IsShare ns id best v =
      chosen-IsShare best.before best.chosen best.after (subst Scored best.split v) best.fits

  module _ (order : IsOrder better) where
    Ends-tight :
        (n : Node) (ns : List Node) (id : ℕ) (share : DominantShare) (r : Option ℕ)
        → can_fit n request ≡ false
        → Ends ns id share r
        → Ends (n ∷ ns) id share r
    unfolding IsBest-cons
    Ends-tight n ns id share r tight e = record {
      chosen = e.chosen;
      answer = e.answer;
      why = elim e.why [
        | inl (same, h) ↦ inl (same, ((λ fit. cc), h))
        | inr (best, h) ↦ inr (IsBest-cons n ns e.chosen best (λ fit. cc), h)
      ];
    }

    Ends-loses :
        (n : Node) (ns : List Node) (id : ℕ) (share : DominantShare) (r : Option ℕ)
        → can_fit n request ≡ true
        → better (score n) share ≡ false
        → Scored (n ∷ ns)
        → IsShare share
        → Ends ns id share r
        → Ends (n ∷ ns) id share r
    unfolding IsBest-cons
    Ends-loses n ns id share r fit loses v w e = record {
      chosen = e.chosen;
      answer = e.answer;
      why = elim e.why [
        | inl (same, h) ↦ inl (same, ((λ _. loses), h))
        | inr (best, h) ↦ inr (
          IsBest-cons n ns e.chosen best (λ _.
              order.beats_unbeaten (score best.chosen) share (score n)
                (best-IsShare ns e.chosen best v.1) w (v.0 fit) h loses),
          h,
        )
      ];
    }

    Ends-wins :
        (n : Node) (ns : List Node) (id : ℕ) (share : DominantShare) (r : Option ℕ)
        → can_fit n request ≡ true
        → better (score n) share ≡ true
        → Scored (n ∷ ns)
        → IsShare share
        → Ends ns n.id (score n) r
        → Ends (n ∷ ns) id share r
    unfolding IsBest-head IsBest-cons
    Ends-wins n ns id share r fit wins v w e = record {
      chosen = e.chosen;
      answer = e.answer;
      why = elim e.why [
        | inl (same, h) ↦ inr (IsBest-head n ns e.chosen (sym same) fit h, wins)
        | inr (best, h) ↦ inr (
          IsBest-cons n ns e.chosen best (λ _. h),
          order.trans (score best.chosen) (score n) share (best-IsShare ns e.chosen best v.1)
              (v.0 fit) w h wins,
        )
      ];
    }

    scan-Ends :
        (ns : List Node) (id : ℕ) (share : DominantShare)
        → Scored ns
        → IsShare share
        → Ends ns id share (scan better score request ns (some (id, share)))
    unfolding scan
    scan-Ends [] id share v w = record { chosen = id; answer = refl; why = inl (refl, tt) }
    scan-Ends (n ∷ ns) id share v w = elim (Bool-cases (can_fit n request)) [
      | inr tight ↦ rw tight (Ends-tight n ns id share _ tight (scan-Ends ns id share v.1 w))
      | inl fit ↦ elim (Bool-cases (better (score n) share)) [
        | inl wins ↦
            rw (fit, wins)
              (Ends-wins n ns id share _ fit wins v w (scan-Ends ns n.id (score n) v.1 (v.0 fit)))
        | inr loses ↦
            rw (fit, loses) (Ends-loses n ns id share _ fit loses v w (scan-Ends ns id share v.1 w))
      ]
    ]

    Chooses-head :
        (n : Node) (ns : List Node) (r : Option ℕ)
        → can_fit n request ≡ true
        → Ends ns n.id (score n) r
        → Chooses (n ∷ ns) r
    Chooses-head n ns r fit e = rw e.answer (elim e.why [
      | inl (same, h) ↦ IsBest-head n ns e.chosen (sym same) fit h
      | inr (best, h) ↦ IsBest-cons n ns e.chosen best (λ _. h)
    ])

    Chooses-tight :
        (n : Node) (ns : List Node) (r : Option ℕ)
        → can_fit n request ≡ false
        → Chooses ns r
        → Chooses (n ∷ ns) r
    Chooses-tight n ns none tight c = (tight, c)
    Chooses-tight n ns (some id) tight best = IsBest-cons n ns id best (λ fit. cc)

    pub scan-Chooses : (ns : List Node) → Scored ns → Chooses ns (scan better score request ns none)
    unfolding scan
    scan-Chooses [] v = tt
    scan-Chooses (n ∷ ns) v = elim (Bool-cases (can_fit n request)) [
      | inr tight ↦ rw tight (Chooses-tight n ns _ tight (scan-Chooses ns v.1))
      | inl fit ↦ rw fit (Chooses-head n ns _ fit (scan-Ends ns n.id (score n) v.1 (v.0 fit)))
    ]

-- A well formed node with some of each resource and at most 2^32 - 1 megabytes.
pub record IsModest (n : Node) : Type 0 where
  pub is_node : IsNode n
  pub some_cores : 0 < n.capacity.cores
  pub some_memory : 0 < n.capacity.memory_mb
  pub memory_below : n.capacity.memory_mb < u32_mod

share_before-IsShare : (n : Node) → IsModest n → IsShare (share_before n)
unfolding share_before
share_before-IsShare n m =
    let v = m.is_node in
    rw
      (
        sub32_exact n.capacity.cores n.free.cores v.free_cores v.cores_fit,
        sub64_exact n.capacity.memory_mb n.free.memory_mb v.free_memory v.memory_fit,
      )
      (dominant_share-IsShare _ _ (omega arith) (omega arith) (omega arith) (omega arith)
        (omega arith) (omega arith))

share_after-IsShare :
    (request : Resources) (n : Node)
    → IsModest n
    → can_fit n request ≡ true
    → IsShare (share_after request n)
unfolding share_after can_fit
share_after-IsShare request n m fit =
    let v = m.is_node in
    let fits : (request.cores ≤ n.free.cores) × (request.memory_mb ≤ n.free.memory_mb) =
      ground arith in
    rw
      (
        sub32_exact n.capacity.cores n.free.cores v.free_cores v.cores_fit,
        sub64_exact n.capacity.memory_mb n.free.memory_mb v.free_memory v.memory_fit,
        add32_exact (n.capacity.cores - n.free.cores) request.cores (omega arith),
        add64_exact (n.capacity.memory_mb - n.free.memory_mb) request.memory_mb (omega arith),
      )
      (dominant_share-IsShare _ _ (omega arith) (omega arith) (omega arith) (omega arith)
        (omega arith) (omega arith))

All-map : (P Q : Node → Type 0) (ns : List Node) → ((n : Node) → P n → Q n) → All P ns → All Q ns
All-map P Q [] f v = tt
All-map P Q (n ∷ ns) f v = (f n v.0, All-map P Q ns f v.1)

-- On nodes with some of each resource and capacities below 2^32, least_loaded answers with the
-- first node, among those that fit, whose dominant share in use is least, and with none only if
-- no node fits.
pub least_loaded-Chooses :
    (job : Job) (nodes : List Node)
    → All IsModest nodes
    → (r : Option ℕ) × (place least_loaded job nodes ≡ some (r, least_loaded))
      × Chooses share_lt share_before job.request nodes r
unfolding place
least_loaded-Chooses job nodes v = (
  _,
  refl,
  rw (least_loaded-scan job.request nodes none) (
      scan-Chooses share_lt share_before job.request less-IsOrder nodes
        (All-map IsModest _ nodes (λ n m _. share_before-IsShare n m) v)),
)

-- On such nodes resource_aware answers with the first node, among those that fit, whose dominant
-- share with the job on it is greatest, and with none only if no node fits.
pub resource_aware-Chooses :
    (job : Job) (nodes : List Node)
    → All IsModest nodes
    → (r : Option ℕ) × (place resource_aware job nodes ≡ some (r, resource_aware))
      × Chooses (λ a b. share_lt b a) (share_after job.request) job.request nodes r
unfolding place
resource_aware-Chooses job nodes v = (
  _,
  refl,
  rw (resource_aware-scan job.request nodes none) (
      scan-Chooses (λ a b. share_lt b a) (share_after job.request) job.request more-IsOrder nodes
        (All-map IsModest _ nodes (λ n m fit. share_after-IsShare job.request n m fit) v)),
)
