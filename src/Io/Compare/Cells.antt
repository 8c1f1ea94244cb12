-- ===== src/Io/Compare/Cells.antt =====
-- Rows of cells, as src/atlas/io/compare.cpp writes them.
use atlas_simulator.Prelude.{
  ℕ, ◌<◌, ◌≡◌, refl, ap, sym, ◌∙◌, ◌≢◌, ◌⊎◌, inl, inr, List, Option, some, arith, ◌>>=◌, get_elem?,
  get_elem?-in, get_elem?-lt, get_elem?-set_self, get_elem?-set_ne, get_elem?-set_cases,
  get_elem?-unique, set, length, length-set, replicate, replicate-get, length-replicate,
}
use native.Mathlib.Decide.{ℕ_discrete}
use atlas_simulator.Io.Compare.{cell_at, set_cell}

-- `n` rows of length `m`.
pub record IsShape {ℓ} {A : Type ℓ} (rows : List (List A)) (n m : ℕ) : Type ℓ where
  pub height : length rows ≡ n
  pub width : (i : ℕ) (row : List A) → get_elem? rows i ≡ some row → length row ≡ m

pub replicate-IsShape {ℓ} :
    {A : Type ℓ} (n m : ℕ) (a : A) → IsShape (replicate n (replicate m a)) n m
replicate-IsShape n m a =
    let rows = replicate n (replicate m a) in
    record {
      height = length-replicate n (replicate m a);
      width = λ i row at.
          let inside : i < n =
            omega (arith, get_elem?-lt rows i at, length-replicate n (replicate m a)) in
          ap length (get_elem?-unique rows i i refl (replicate-get n i (replicate m a) inside) at)
          ∙ length-replicate m a;
    }

-- A write that succeeds, and what the cells hold behind it.
pub record Written {ℓ} {A : Type ℓ} (rows : List (List A)) (n m i k : ℕ) (a : A)
    (r : Option (List (List A))) : Type ℓ where
  pub next : List (List A)
  pub result : r ≡ some next
  pub shape : IsShape next n m
  pub here : cell_at next i k ≡ some a
  pub kept : (x y : ℕ) → (y ≢ k) ⊎ (x ≢ i) → cell_at next x y ≡ cell_at rows x y

pub set_cell-Written {ℓ} :
    {A : Type ℓ} (rows : List (List A)) (n m i k : ℕ) (a : A)
    → IsShape rows n m
    → i < n
    → k < m
    → Written rows n m i k a (set_cell rows i k a)
unfolding set_cell
set_cell-Written rows n m i k a v lt lt' =
    let (row, at) = get_elem?-in rows i (omega (arith, v.height)) in
    let (old, there) = get_elem?-in row k (omega (arith, v.width i row at)) in
    let new = set row k a in
    let reads : get_elem? (set rows i new) i ≡ some new =
      get_elem?-set_self rows i new (get_elem?-lt rows i at) in
    rw (at, ◌>>=◌)
      (rw (there, ◌>>=◌)
        (record {
          next = set rows i new;
          result = refl;
          shape = record {
            height = length-set rows i new ∙ v.height;
            width = λ x xs seen. elim (get_elem?-set_cases rows i x new xs seen) [
              | inl (same, e) ↦ ap length e ∙ (length-set row k a ∙ v.width i row at)
              | inr (other, e) ↦ v.width x xs e
            ];
          };
          here = rw (reads, ◌>>=◌) (get_elem?-set_self row k a (get_elem?-lt row k there));
          kept = λ x y differ. elim (ℕ_discrete i x) [
            | no other ↦ rw (get_elem?-set_ne rows i x new other) refl
            | yes e ↦ elim differ [
              | inr other ↦ absurd (other (sym e))
              | inl other ↦
                  rw (← e)
                    (rw (reads, at, ◌>>=◌) (get_elem?-set_ne row k y a (λ same. other (sym same))))
            ]
          ];
        }))
