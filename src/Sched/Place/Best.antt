-- ===== src/Sched/Place/Best.antt =====
-- The scan that least_loaded.cpp and resource_aware.cpp share: the node with the best score, and
-- the first such node on a tie.
use atlas_simulator.Prelude.{
  ℕ, ◌≡◌, refl, sym, ◌⊎◌, inl, inr, Bool, true, List, [], ◌∷◌, Option, none, some, Bool-cases,
  if◌then◌else◌,
}
use atlas_simulator.Model.Types.{Resources, Node, can_fit}
use atlas_simulator.Sched.Place.{
  DominantShare, least_loaded_loop, resource_aware_loop, share_lt, share_before, share_after,
}
use atlas_simulator.Sched.Place.Contract.{Answers, Fits, Answers-cons, Fits-cons}

module _ (better : DominantShare → DominantShare → Bool) (score : Node → DominantShare)
    (request : Resources) where
  -- The scan with the better-than test and the score as parameters.
  unfoldable pub scan : List Node → Option (ℕ × DominantShare) → Option ℕ
  scan [] none = none
  scan [] (some (id, share)) = some id
  scan (n ∷ ns) best = scan ns (
      if can_fit n request
      then elim best [
        | none ↦ some (n.id, score n)
        | some (id, best_share) ↦
            if better (score n) best_share then some (n.id, score n) else some (id, best_share)
      ]
      else best)

  -- A scan that has a candidate ends with it or with a node of the list that fits.
  record Keeps (ns : List Node) (id : ℕ) (r : Option ℕ) : Type 0 where
    chosen : ℕ
    answer : r ≡ some chosen
    origin : (chosen ≡ id) ⊎ Fits request ns chosen

  Keeps-cons :
      (n : Node) (ns : List Node) (id : ℕ) (r : Option ℕ) → Keeps ns id r → Keeps (n ∷ ns) id r
  Keeps-cons n ns id r k = record {
    chosen = k.chosen;
    answer = k.answer;
    origin = elim k.origin [ inl same ↦ inl same | inr f ↦ inr (Fits-cons n f) ];
  }

  Keeps-new :
      (n : Node) (ns : List Node) (id : ℕ) (r : Option ℕ)
      → can_fit n request ≡ true
      → Keeps ns n.id r
      → Keeps (n ∷ ns) id r
  Keeps-new n ns id r fit k = record {
    chosen = k.chosen;
    answer = k.answer;
    origin = inr (elim k.origin [
      | inl same ↦ record { node = n; index = 0; at = refl; named = sym same; fits = fit }
      | inr f ↦ Fits-cons n f
    ]);
  }

  Keeps→Answers :
      (ns : List Node) (n : Node) (r : Option ℕ)
      → can_fit n request ≡ true
      → Keeps ns n.id r
      → Answers request (n ∷ ns) r
  Keeps→Answers ns n r fit k =
      let k' = Keeps-new n ns n.id r fit k in
      rw k'.answer (elim k'.origin [
        | inl same ↦ record { node = n; index = 0; at = refl; named = sym same; fits = fit }
        | inr f ↦ f
      ])

  scan-Keeps :
      (ns : List Node) (id : ℕ) (share : DominantShare) → Keeps ns id (scan ns (some (id, share)))
  unfolding scan
  scan-Keeps [] id share = record { chosen = id; answer = refl; origin = inl refl }
  scan-Keeps (n ∷ ns) id share = elim (Bool-cases (can_fit n request)) [
    | inr tight ↦ rw tight (Keeps-cons n ns id _ (scan-Keeps ns id share))
    | inl fit ↦ elim (Bool-cases (better (score n) share)) [
      | inl beats ↦ rw (fit, beats) (Keeps-new n ns id _ fit (scan-Keeps ns n.id (score n)))
      | inr keeps ↦ rw (fit, keeps) (Keeps-cons n ns id _ (scan-Keeps ns id share))
    ]
  ]

  pub scan-Answers : (ns : List Node) → Answers request ns (scan ns none)
  unfolding scan
  scan-Answers [] = tt
  scan-Answers (n ∷ ns) = elim (Bool-cases (can_fit n request)) [
    | inr tight ↦ rw tight (Answers-cons request n ns _ tight (scan-Answers ns))
    | inl fit ↦ rw fit (Keeps→Answers ns n _ fit (scan-Keeps ns n.id (score n)))
  ]

pub least_loaded-scan :
    (request : Resources) (ns : List Node) (best : Option (ℕ × DominantShare))
    → least_loaded_loop request ns best ≡ scan share_lt share_before request ns best
unfolding least_loaded_loop scan
least_loaded-scan request [] none = refl
least_loaded-scan request [] (some (id, share)) = refl
least_loaded-scan request (n ∷ ns) best = least_loaded-scan request ns _

pub resource_aware-scan :
    (request : Resources) (ns : List Node) (best : Option (ℕ × DominantShare))
    → resource_aware_loop request ns best
      ≡ scan (λ a b. share_lt b a) (share_after request) request ns best
unfolding resource_aware_loop scan
resource_aware-scan request [] none = refl
resource_aware-scan request [] (some (id, share)) = refl
resource_aware-scan request (n ∷ ns) best = resource_aware-scan request ns _
