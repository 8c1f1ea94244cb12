-- ===== src/Metrics/Percentiles/Parts.antt =====
-- A call of std::nth_element on the part of a list before its pivot.
use atlas_simulator.Prelude.{
  ℕ, suc, ◌+◌, ◌≤◌, ◌<◌, ◌≡◌, refl, ap, sym, subst, ◌∙◌, List, [], ◌∷◌, ◌++◌, arith, leb, ltb,
  if◌then◌else◌, All, All-append, All-get_elem?, get_elem?, get_elem?-lt, length, take, drop,
  take-drop, length-take, get_elem?-append_left, get_elem?-append_right, take-append_left,
  drop-append_left, take_all, drop_all, ◌-◌, drop-cons, sum_of, sum_of-append, sum_of-le-length,
}
use native.Mathlib.Decide.{ℕ_discrete}
use atlas_simulator.Metrics.Percentiles.{IsParted, NthElement, nth_before}

-- The values that are at most `v`, and those that are less, counted.
abbrev pub at_most : ℕ → List ℕ → ℕ
at_most v = sum_of (λ x. if leb x v then 1 else 0)

abbrev pub less : ℕ → List ℕ → ℕ
less v = sum_of (λ x. if ltb x v then 1 else 0)

-- One for a value above `p`.
abbrev over : ℕ → ℕ → ℕ
over p x = if ltb p x then 1 else 0

over_none : (p : ℕ) (xs : List ℕ) → All (λ x. x ≤ p) xs → sum_of (over p) xs ≡ 0
over_none p [] h = refl
over_none p (x ∷ xs) h = ground (arith, h.0, over_none p xs h.1)

All-of_over : (p : ℕ) (xs : List ℕ) → sum_of (over p) xs ≡ 0 → All (λ x. x ≤ p) xs
All-of_over p [] h = tt
All-of_over p (x ∷ xs) h = (ground arith, All-of_over p xs (omega arith))

at_most-All : (v : ℕ) (xs : List ℕ) → All (λ x. x ≤ v) xs → at_most v xs ≡ length xs
at_most-All v [] h = refl
at_most-All v (x ∷ xs) h = ground (arith, h.0, at_most-All v xs h.1)

less-none : (v : ℕ) (xs : List ℕ) → All (λ x. v ≤ x) xs → less v xs ≡ 0
less-none v [] h = refl
less-none v (x ∷ xs) h = ground (arith, h.0, less-none v xs h.1)

-- A pivot has at most `k` values below it, and more than `k` that do not exceed it.
pub IsParted-ranked :
    (k : ℕ) (xs : List ℕ) (h : IsParted k xs) → (less h.pivot xs ≤ k) × (k < at_most h.pivot xs)
IsParted-ranked k xs h =
    let inside = get_elem?-lt xs k h.at in
    let (ys, behind) = drop-cons k xs h.pivot h.at in
    let split = λ (f : ℕ → ℕ).
      sym (ap (sum_of f) (take-drop k xs)) ∙ sum_of-append f (take k xs) (drop k xs) in
    let number = length-take k xs (omega arith) in
    let few =
      sum_of-le-length (λ x. if ltb x h.pivot then 1 else 0) (take k xs) (λ x. ground arith) in
    let one : at_most h.pivot (drop k xs) ≡ suc (at_most h.pivot ys) =
      ap (at_most h.pivot) behind ∙ ground arith in
    (
      omega (
        arith,
        split (λ x. if ltb x h.pivot then 1 else 0),
        less-none h.pivot (drop k xs) h.above,
        few,
        number,
      ),
      omega (
        arith,
        split (λ x. if leb x h.pivot then 1 else 0),
        one,
        at_most-All h.pivot (take k xs) h.below,
        number,
      ),
    )

All-le_trans : (p q : ℕ) (xs : List ℕ) → q ≤ p → All (λ x. p ≤ x) xs → All (λ x. q ≤ x) xs
All-le_trans p q [] h all = tt
All-le_trans p q (x ∷ xs) h all = (omega arith, All-le_trans p q xs h all.1)

ones : (xs : List ℕ) → sum_of (λ x. 1) xs ≡ length xs
ones [] = refl
ones (x ∷ xs) = omega (arith, ones xs)

module _ (nth : NthElement) where
  length-call : (j : ℕ) (xs : List ℕ) → length (nth.call j xs) ≡ length xs
  length-call j xs = sym (ones (nth.call j xs)) ∙ (nth.permutes (λ x. 1) j xs ∙ ones xs)

  pub nth_before-permutes :
      (f : ℕ → ℕ) (k j : ℕ) (xs : List ℕ) → sum_of f (nth_before nth k j xs) ≡ sum_of f xs
  unfolding nth_before
  nth_before-permutes f k j xs = omega (
    arith,
    sum_of-append f (nth.call j (take k xs)) (drop k xs),
    nth.permutes f j (take k xs),
    sum_of-append f (take k xs) (drop k xs),
    ap (sum_of f) (take-drop k xs),
  )

  module _ (k : ℕ) (xs : List ℕ) (h : IsParted k xs) (j : ℕ) where
    abbrev front : List ℕ
    front = nth.call j (take k xs)

    length-front : length front ≡ k
    length-front =
        let inside = get_elem?-lt xs k h.at in
        length-call j (take k xs) ∙ length-take k xs (omega arith)

    front_below : All (λ x. x ≤ h.pivot) front
    front_below =
        All-of_over h.pivot front
          (nth.permutes (over h.pivot) j (take k xs) ∙ over_none h.pivot (take k xs) h.below)

    -- What stands from `k` on stays.
    pub nth_before-get : (i : ℕ) → k ≤ i → get_elem? (nth_before nth k j xs) i ≡ get_elem? xs i
    unfolding nth_before
    nth_before-get i le =
        let inside = get_elem?-lt xs k h.at in
        let number = length-take k xs (omega arith) in
        let here : i ≡ length front + (i - k) = omega (arith, length-front) in
        let there : length (take k xs) + (i - k) ≡ i = omega (arith, number) in
        ap (get_elem? (front ++ drop k xs)) here
        ∙ (get_elem?-append_right (i - k) front (drop k xs)
            ∙ (sym (get_elem?-append_right (i - k) (take k xs) (drop k xs))
                ∙ (ap (get_elem? (take k xs ++ drop k xs)) there
                    ∙ ap (λ ys. get_elem? ys i) (take-drop k xs))))

    -- At the end of the range the call splits nothing anew.
    same_part : j ≡ k → IsParted j (nth_before nth k j xs)
    unfolding nth_before
    same_part e = record {
      pivot = h.pivot;
      at = ap (get_elem? (nth_before nth k j xs)) e ∙ (nth_before-get k (omega arith) ∙ h.at);
      below =
          subst (All (λ x. x ≤ h.pivot))
            (sym (
              take-append_left j front (drop k xs) (omega (arith, length-front))
              ∙ take_all j front (omega (arith, length-front))))
            front_below;
      above =
          subst (All (λ x. h.pivot ≤ x))
            (sym (
              drop-append_left j front (drop k xs) (omega (arith, length-front))
              ∙ ap (λ ys. ys ++ drop k xs) (drop_all j front (omega (arith, length-front)))))
            h.above;
    }

    inner_part : j < k → IsParted j (nth_before nth k j xs)
    unfolding nth_before
    inner_part lt =
        let inside = get_elem?-lt xs k h.at in
        let v = nth.parts j (take k xs) (omega (arith, length-take k xs)) in
        let long : j < length front = omega (arith, length-front) in
        let under : v.pivot ≤ h.pivot = All-get_elem? (λ x. x ≤ h.pivot) front j front_below v.at in
        record {
          pivot = v.pivot;
          at = get_elem?-append_left j front (drop k xs) long ∙ v.at;
          below =
              subst (All (λ x. x ≤ v.pivot))
                (sym (take-append_left j front (drop k xs) (omega arith))) v.below;
          above =
              subst (All (λ x. v.pivot ≤ x))
                (sym (drop-append_left j front (drop k xs) (omega arith)))
                (All-append (λ x. v.pivot ≤ x) (drop j front) (drop k xs) v.above
                  (All-le_trans h.pivot v.pivot (drop k xs) under h.above));
        }

    pub nth_before-IsParted : j ≤ k → IsParted j (nth_before nth k j xs)
    nth_before-IsParted le = elim (ℕ_discrete j k) [
      | yes e ↦ same_part e
      | no other ↦ inner_part (omega arith)
    ]
