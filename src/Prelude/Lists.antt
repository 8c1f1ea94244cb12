-- ===== src/Prelude/Lists.antt =====
-- Lists measured and indexed by native numbers, under the library's names.
use Prim.Native.Nat.{ℕ, zero, suc, ◌+◌, ◌≤◌, ◌<◌}
use mathlib.Core.Path.{◌≡◌, refl, ap, sym, ◌∙◌}
use mathlib.Core.Logic.{◌≢◌, ◌⊎◌, inl, inr}
use mathlib.Core.List.{List, [], ◌∷◌, ◌++◌, map}
use mathlib.Core.Option.{Option, none, some}
use native.Mathlib.Omega.{arith}

module _ {ℓ} {A : Type ℓ} where
  abbrev pub length : List A → ℕ
  length [] = 0
  length (x ∷ xs) = suc (length xs)

  -- `v[i]`; an index out of range has no value.
  abbrev pub get_elem? : List A → ℕ → Option A
  get_elem? [] i = none
  get_elem? (x ∷ xs) zero = some x
  get_elem? (x ∷ xs) (suc i) = get_elem? xs i

  -- A write out of bounds changes nothing.
  abbrev pub set : List A → ℕ → A → List A
  set [] i v = []
  set (x ∷ xs) zero v = v ∷ xs
  set (x ∷ xs) (suc i) v = x ∷ set xs i v

  pub length-append : (xs ys : List A) → length (xs ++ ys) ≡ length xs + length ys
  length-append [] ys = omega arith
  length-append (x ∷ xs) ys = omega (arith, length-append xs ys)

module _ {ℓ} {A : Type ℓ} where
  pub length-set : (xs : List A) (i : ℕ) (v : A) → length (set xs i v) ≡ length xs
  length-set [] i v = refl
  length-set (x ∷ xs) zero v = refl
  length-set (x ∷ xs) (suc i) v = ap suc (length-set xs i v)

  pub get_elem?-lt : (xs : List A) (i : ℕ) {a : A} → get_elem? xs i ≡ some a → i < length xs
  get_elem?-lt [] i h = cc
  get_elem?-lt (x ∷ xs) zero h = omega arith
  get_elem?-lt (x ∷ xs) (suc i) h = omega (arith, get_elem?-lt xs i h)

  pub get_elem?-in : (xs : List A) (i : ℕ) → i < length xs → (a : A) × (get_elem? xs i ≡ some a)
  get_elem?-in [] i h = elim h [ ]
  get_elem?-in (x ∷ xs) zero h = (x, refl)
  get_elem?-in (x ∷ xs) (suc i) h = get_elem?-in xs i (omega arith)

  pub get_elem?-set_self :
      (xs : List A) (i : ℕ) (v : A) → i < length xs → get_elem? (set xs i v) i ≡ some v
  get_elem?-set_self [] i v h = elim h [ ]
  get_elem?-set_self (x ∷ xs) zero v h = refl
  get_elem?-set_self (x ∷ xs) (suc i) v h = get_elem?-set_self xs i v (omega arith)

  pub get_elem?-set_ne :
      (xs : List A) (i j : ℕ) (v : A) → i ≢ j → get_elem? (set xs i v) j ≡ get_elem? xs j
  get_elem?-set_ne [] i j v h = refl
  get_elem?-set_ne (x ∷ xs) zero zero v h = absurd (h refl)
  get_elem?-set_ne (x ∷ xs) zero (suc j) v h = refl
  get_elem?-set_ne (x ∷ xs) (suc i) zero v h = refl
  get_elem?-set_ne (x ∷ xs) (suc i) (suc j) v h = get_elem?-set_ne xs i j v (λ e. h (ap suc e))

  -- Writing back what stands there changes nothing.
  pub set-get_elem? : (xs : List A) (i : ℕ) (v : A) → get_elem? xs i ≡ some v → set xs i v ≡ xs
  set-get_elem? [] i v h = refl
  set-get_elem? (x ∷ xs) zero v h = cc
  set-get_elem? (x ∷ xs) (suc i) v h = ap (◌∷◌ x) (set-get_elem? xs i v h)

  pub set-set : (xs : List A) (i : ℕ) (v w : A) → set (set xs i v) i w ≡ set xs i w
  set-set [] i v w = refl
  set-set (x ∷ xs) zero v w = refl
  set-set (x ∷ xs) (suc i) v w = ap (◌∷◌ x) (set-set xs i v w)

-- `P` holds of every element.
abbrev pub All {ℓ κ} : {A : Type ℓ} → (A → Type κ) → List A → Type κ
All P [] = Unit
All P (x ∷ xs) = P x × All P xs

module _ {ℓ κ} {A : Type ℓ} (P : A → Type κ) where
  pub All-get_elem? : (xs : List A) (i : ℕ) {a : A} → All P xs → get_elem? xs i ≡ some a → P a
  All-get_elem? [] i all h = cc
  All-get_elem? (x ∷ xs) zero all h = ground (arith, all.0)
  All-get_elem? (x ∷ xs) (suc i) all h = All-get_elem? xs i all.1 h

  pub All-set : (xs : List A) (i : ℕ) (v : A) → All P xs → P v → All P (set xs i v)
  All-set [] i v all h = all
  All-set (x ∷ xs) zero v all h = (h, all.1)
  All-set (x ∷ xs) (suc i) v all h = (all.0, All-set xs i v all.1 h)

  pub All-append : (xs ys : List A) → All P xs → All P ys → All P (xs ++ ys)
  All-append [] ys hx hy = hy
  All-append (x ∷ xs) ys hx hy = (hx.0, All-append xs ys hx.1 hy)

  pub All-intro : (xs : List A) → ((i : ℕ) (a : A) → get_elem? xs i ≡ some a → P a) → All P xs
  All-intro [] h = tt
  All-intro (x ∷ xs) h = (h 0 x refl, All-intro xs (λ i a at. h (suc i) a at))

module _ {ℓ} {A : Type ℓ} where
  -- Reading after a write: the written value, or what stood at another index.
  pub get_elem?-set_cases :
      (xs : List A) (i j : ℕ) (v a : A)
      → get_elem? (set xs i v) j ≡ some a
      → ((j ≡ i) × (a ≡ v)) ⊎ ((j ≢ i) × (get_elem? xs j ≡ some a))
  get_elem?-set_cases [] i j v a at = cc
  get_elem?-set_cases (x ∷ xs) zero zero v a at = inl (refl, cc)
  get_elem?-set_cases (x ∷ xs) zero (suc j) v a at = inr (omega arith, at)
  get_elem?-set_cases (x ∷ xs) (suc i) zero v a at = inr (omega arith, at)
  get_elem?-set_cases (x ∷ xs) (suc i) (suc j) v a at = elim (get_elem?-set_cases xs i j v a at) [
    | inl (same, new) ↦ inl (ap suc same, new)
    | inr (other, old) ↦ inr (omega arith, old)
  ]

  pub get_elem?-unique :
      (xs : List A) (i j : ℕ) {a b : A}
      → i ≡ j
      → get_elem? xs i ≡ some a
      → get_elem? xs j ≡ some b
      → b ≡ a
  get_elem?-unique xs i j {a} {b} same p q = let read : some b ≡ some a = cc in cc

module _ {ℓ} {A : Type ℓ} where
  -- The sum of a quantity over a list, with no wrap-around.
  abbrev pub sum_of : (A → ℕ) → List A → ℕ
  sum_of f [] = 0
  sum_of f (x ∷ xs) = f x + sum_of f xs

  pub sum_of-append : (f : A → ℕ) (xs ys : List A) → sum_of f (xs ++ ys) ≡ sum_of f xs + sum_of f ys
  sum_of-append f [] ys = omega arith
  sum_of-append f (x ∷ xs) ys = omega (arith, sum_of-append f xs ys)

module _ {ℓ} {A : Type ℓ} where
  -- Replacing one element changes the sum by the difference at that element.
  pub sum_of-set :
      (f : A → ℕ) (xs : List A) (i : ℕ) (a b : A)
      → get_elem? xs i ≡ some a
      → sum_of f (set xs i b) + f a ≡ sum_of f xs + f b
  sum_of-set f [] i a b at = cc
  sum_of-set f (x ∷ xs) zero a b at = let same : x ≡ a = cc in omega (arith, ap f same)
  sum_of-set f (x ∷ xs) (suc i) a b at = omega (arith, sum_of-set f xs i a b at)

  -- One element's share of the sum.
  pub sum_of-get_elem? :
      (f : A → ℕ) (xs : List A) (i : ℕ) (a : A) → get_elem? xs i ≡ some a → f a ≤ sum_of f xs
  sum_of-get_elem? f [] i a at = cc
  sum_of-get_elem? f (x ∷ xs) zero a at = let same : x ≡ a = cc in omega (arith, ap f same)
  sum_of-get_elem? f (x ∷ xs) (suc i) a at = omega (arith, sum_of-get_elem? f xs i a at)

  pub List-cases : (xs : List A) → (xs ≡ []) ⊎ ((x : A) × (ys : List A) × (xs ≡ x ∷ ys))
  List-cases [] = inl refl
  List-cases (x ∷ xs) = inr (x, xs, refl)

module _ {ℓ κ} {A : Type ℓ} {B : Type κ} (f : A → B) where
  -- A replacement that `f` does not see.
  pub map-set_same :
      (xs : List A) (i : ℕ) (a b : A)
      → get_elem? xs i ≡ some a
      → f b ≡ f a
      → map f (set xs i b) ≡ map f xs
  map-set_same [] i a b at e = refl
  map-set_same (x ∷ xs) zero a b at e =
      let same : x ≡ a = cc in ap (λ y. y ∷ map f xs) (e ∙ ap f (sym same))
  map-set_same (x ∷ xs) (suc i) a b at e = ap (◌∷◌ (f x)) (map-set_same xs i a b at e)

  -- Lists with the same image agree, index by index, on what `f` sees.
  pub map-same_get :
      (xs ys : List A) (i : ℕ) (a : A)
      → map f xs ≡ map f ys
      → get_elem? xs i ≡ some a
      → (b : A) × (get_elem? ys i ≡ some b) × (f b ≡ f a)
  map-same_get [] ys i a e at = cc
  map-same_get (x ∷ xs) [] i a e at = cc
  map-same_get (x ∷ xs) (y ∷ ys) zero a e at =
      let same : x ≡ a = cc in let heads : f y ≡ f x = cc in (y, refl, heads ∙ ap f same)
  map-same_get (x ∷ xs) (y ∷ ys) (suc i) a e at =
      let tails : map f xs ≡ map f ys = cc in map-same_get xs ys i a tails at
