-- ===== src/Metrics/Percentiles.antt =====
-- src/atlas/metrics/percentiles.hpp and percentiles.cpp. std::nth_element is a parameter.
pub mod Parts
pub mod Nearest
pub mod Sorting
mod Tests
use atlas_simulator.Prelude.{
  ℕ, suc, ◌≤◌, ◌<◌, ◌≡◌, Bool, not, List, [], ◌∷◌, ◌++◌, Option, none, some, All, assert, ◌>>=◌,
  ◌>>◌, get_elem?, length, take, drop, sum_of,
}
use atlas_simulator.Metrics.Samples.{percentile_rank}

-- The list is split by its element at `k`: none before it is greater, none behind it is less.
pub record IsParted (k : ℕ) (xs : List ℕ) : Type 0 where
  pub pivot : ℕ
  pub at : get_elem? xs k ≡ some pivot
  pub below : All (λ x. x ≤ pivot) (take k xs)
  pub above : All (λ x. pivot ≤ x) (drop k xs)

-- std::nth_element on a whole range, for the element at `k`, or for the end of the range: it moves
-- elements about, and splits the range by the element that comes to stand at `k`.
pub record NthElement : Type 0 where
  pub call : ℕ → List ℕ → List ℕ
  pub permutes : (f : ℕ → ℕ) (k : ℕ) (xs : List ℕ) → sum_of f (call k xs) ≡ sum_of f xs
  pub parts : (k : ℕ) (xs : List ℕ) → k < length xs → IsParted k (call k xs)

pub record Percentiles : Type 0 where
  pub p50 : ℕ
  pub p95 : ℕ
  pub p99 : ℕ

module _ (nth : NthElement) where
  -- The call on the range from the beginning up to `last`.
  unfoldable pub nth_before : ℕ → ℕ → List ℕ → List ℕ
  nth_before last k xs = nth.call k (take last xs) ++ drop last xs

  -- The order statistics, and `values` as the calls leave it.
  unfoldable pub percentiles : List ℕ → Option (Percentiles × List ℕ)
  unfolding nth_before
  percentiles values = do
    assert (elim values [ [] ↦ Bool.false | _ ∷ _ ↦ Bool.true ])
    i50 ← percentile_rank (length values) 50
    i95 ← percentile_rank (length values) 95
    i99 ← percentile_rank (length values) 99
    let v1 = nth.call i99 values
    let v2 = nth_before i99 i95 v1
    let v3 = nth_before i95 i50 v2
    p50 ← get_elem? v3 i50
    p95 ← get_elem? v3 i95
    p99 ← get_elem? v3 i99
    some ((record { p50 = p50; p95 = p95; p99 = p99 }), v3)
