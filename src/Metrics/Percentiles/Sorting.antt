-- ===== src/Metrics/Percentiles/Sorting.antt =====
-- One function that std::nth_element may be: it sorts its whole range.
use atlas_simulator.Prelude.{
  ℕ, zero, suc, ◌+◌, ◌≤◌, ◌<◌, ◌≡◌, refl, inl, inr, Bool-cases, List, [], ◌∷◌, arith, leb,
  if◌then◌else◌, All, All-get_elem?, length, sum_of,
}
use atlas_simulator.Metrics.Percentiles.{IsParted, NthElement}

add : ℕ → List ℕ → List ℕ
add x [] = x ∷ []
add x (y ∷ ys) = if leb x y then x ∷ y ∷ ys else y ∷ add x ys

sorted : List ℕ → List ℕ
unfolding add
sorted [] = []
sorted (x ∷ xs) = add x (sorted xs)

sum_of-add : (f : ℕ → ℕ) (x : ℕ) (xs : List ℕ) → sum_of f (add x xs) ≡ f x + sum_of f xs
unfolding add
sum_of-add f x [] = refl
sum_of-add f x (y ∷ ys) = ground (arith, sum_of-add f x ys)

sum_of-sorted : (f : ℕ → ℕ) (xs : List ℕ) → sum_of f (sorted xs) ≡ sum_of f xs
unfolding sorted
sum_of-sorted f [] = refl
sum_of-sorted f (x ∷ xs) = omega (arith, sum_of-add f x (sorted xs), sum_of-sorted f xs)

-- Each value is at most all that follow.
abbrev Rising : List ℕ → Type 0
Rising [] = Unit
Rising (x ∷ xs) = All (λ y. x ≤ y) xs × Rising xs

All-weaken : (x y : ℕ) (ys : List ℕ) → x ≤ y → All (λ z. y ≤ z) ys → All (λ z. x ≤ z) ys
All-weaken x y [] le h = tt
All-weaken x y (z ∷ zs) le h = (omega arith, All-weaken x y zs le h.1)

add-All : (b x : ℕ) (xs : List ℕ) → b ≤ x → All (λ y. b ≤ y) xs → All (λ y. b ≤ y) (add x xs)
unfolding add
add-All b x [] le h = (le, tt)
add-All b x (y ∷ ys) le h = elim (Bool-cases (leb x y)) [
  | inl e ↦ rw e (le, h)
  | inr e ↦ rw e (h.0, add-All b x ys le h.1)
]

add-Rising : (x : ℕ) (xs : List ℕ) → Rising xs → Rising (add x xs)
unfolding add
add-Rising x [] h = (tt, tt)
add-Rising x (y ∷ ys) h =
    let rest = add-Rising x ys h.1 in
    elim (Bool-cases (leb x y)) [
      | inl e ↦ let le : x ≤ y = ground arith in rw e ((le, All-weaken x y ys le h.0), h)
      | inr e ↦ rw e (add-All y x ys (ground arith) h.0, rest)
    ]

sorted-Rising : (xs : List ℕ) → Rising (sorted xs)
unfolding sorted
sorted-Rising [] = tt
sorted-Rising (x ∷ xs) = add-Rising x (sorted xs) (sorted-Rising xs)

Rising-IsParted : (k : ℕ) (xs : List ℕ) → Rising xs → k < length xs → IsParted k xs
Rising-IsParted k [] h lt = absurd (omega arith)
Rising-IsParted zero (x ∷ xs) h lt = record {
  pivot = x;
  at = refl;
  below = tt;
  above = (omega arith, h.0);
}
Rising-IsParted (suc k) (x ∷ xs) h lt =
    let v = Rising-IsParted k xs h.1 (omega arith) in
    record {
      pivot = v.pivot;
      at = v.at;
      below = (All-get_elem? (λ y. x ≤ y) xs k h.0 v.at, v.below);
      above = v.above;
    }

ones : (xs : List ℕ) → sum_of (λ x. 1) xs ≡ length xs
ones [] = refl
ones (x ∷ xs) = omega (arith, ones xs)

pub sorting : NthElement
sorting = record {
  call = λ k xs. sorted xs;
  permutes = λ f k xs. sum_of-sorted f xs;
  parts = λ k xs lt.
      Rising-IsParted k (sorted xs) (sorted-Rising xs)
        (omega (arith, ones (sorted xs), ones xs, sum_of-sorted (λ x. 1) xs));
}
