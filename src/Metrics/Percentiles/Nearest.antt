-- ===== src/Metrics/Percentiles/Nearest.antt =====
-- The order statistics of src/atlas/metrics/percentiles.cpp, against the convention that
-- percentiles.hpp states.
use atlas_simulator.Prelude.{
  ℕ, suc, ◌+◌, ◌*◌, ◌≤◌, ◌<◌, ◌≡◌, refl, ◌∙◌, ◌≢◌, List, [], ◌∷◌, Option, some, arith, length,
  get_elem?, sum_of, u64_mod, ◌>>=◌,
}
use atlas_simulator.Metrics.Samples.{percentile_rank}
use atlas_simulator.Metrics.Samples.Ranks.{percentile_rank_lem}
use atlas_simulator.Metrics.Percentiles.{IsParted, NthElement, Percentiles, nth_before, percentiles}
use atlas_simulator.Metrics.Percentiles.Parts.{
  at_most, less, IsParted-ranked, nth_before-permutes, nth_before-get, nth_before-IsParted,
}

-- At least `p` percent of the values are at most `v`, and fewer are less.
pub record IsPercentile (p v : ℕ) (values : List ℕ) : Type 0 where
  pub enough : length values * p ≤ 100 * at_most v values
  pub least : 100 * less v values < length values * p

pub record HasPercentiles (values : List ℕ) (r : Option (Percentiles × List ℕ)) : Type 0 where
  pub found : Percentiles
  pub reordered : List ℕ
  pub result : r ≡ some (found, reordered)
  pub p50_right : IsPercentile 50 found.p50 values
  pub p95_right : IsPercentile 95 found.p95 values
  pub p99_right : IsPercentile 99 found.p99 values
  pub permuted : (f : ℕ → ℕ) → sum_of f reordered ≡ sum_of f values

-- A list that holds the same values, split at a nearest rank.
part-IsPercentile :
    (p rank : ℕ) (values xs : List ℕ)
    → ((f : ℕ → ℕ) → sum_of f xs ≡ sum_of f values)
    → length values * p ≤ 100 * suc rank
    → 100 * rank < length values * p
    → (h : IsParted rank xs) → IsPercentile p h.pivot values
part-IsPercentile p rank values xs same enough least h =
    let (few, many) = IsParted-ranked rank xs h in
    record { enough = omega (arith, same _); least = omega (arith, same _) }

-- The nearest rank of `p` percent of `n` values.
record IsRank (n p rank : ℕ) : Type 0 where
  found : percentile_rank n p ≡ some rank
  inside : rank < n
  enough : n * p ≤ 100 * suc rank
  least : 100 * rank < n * p

IsRank-of :
    (n p : ℕ) → 0 < n → 0 < p → p ≤ 100 → n * p + 99 < u64_mod → (rank : ℕ) × IsRank n p rank
IsRank-of n p some_n some_p most small =
    let (rank, found, inside, enough, least) = percentile_rank_lem n p some_n some_p most small in
    (rank, record { found = found; inside = inside; enough = enough; least = least })

module _ (nth : NthElement) where
  module _ (values : List ℕ) (i50 i95 i99 : ℕ) (r50 : IsRank (length values) 50 i50)
      (r95 : IsRank (length values) 95 i95) (r99 : IsRank (length values) 99 i99) where
    abbrev v1 : List ℕ
    v1 = nth.call i99 values

    abbrev v2 : List ℕ
    v2 = nth_before nth i99 i95 v1

    abbrev v3 : List ℕ
    v3 = nth_before nth i95 i50 v2

    same2 : (f : ℕ → ℕ) → sum_of f v2 ≡ sum_of f values
    same2 f = nth_before-permutes nth f i99 i95 v1 ∙ nth.permutes f i99 values

    same3 : (f : ℕ → ℕ) → sum_of f v3 ≡ sum_of f values
    same3 f = nth_before-permutes nth f i95 i50 v2 ∙ same2 f

    part1 : IsParted i99 v1
    part1 = nth.parts i99 values r99.inside

    part2 : IsParted i95 v2
    part2 = nth_before-IsParted nth i99 v1 part1 i95 (omega (arith, r95.least, r99.enough))

    part3 : IsParted i50 v3
    part3 = nth_before-IsParted nth i95 v2 part2 i50 (omega (arith, r50.least, r95.enough))

    at95 : get_elem? v3 i95 ≡ some part2.pivot
    at95 = nth_before-get nth i95 v2 part2 i50 i95 (omega arith) ∙ part2.at

    at99 : get_elem? v3 i99 ≡ some part1.pivot
    at99 =
        nth_before-get nth i95 v2 part2 i50 i99 (omega (arith, r95.least, r99.enough))
        ∙ (nth_before-get nth i99 v1 part1 i95 i99 (omega arith) ∙ part1.at)

    -- What stands behind the three calls is read at the ranks.
    read_ranks : HasPercentiles values (do
      p50 ← get_elem? v3 i50
      p95 ← get_elem? v3 i95
      p99 ← get_elem? v3 i99
      some ((record { p50 = p50; p95 = p95; p99 = p99 }), v3))
    read_ranks =
        rw (part3.at, ◌>>=◌)
          (rw (at95, ◌>>=◌)
            (rw (at99, ◌>>=◌)
              (record {
                found = record { p50 = part3.pivot; p95 = part2.pivot; p99 = part1.pivot };
                reordered = v3;
                result = refl;
                p50_right = part-IsPercentile 50 i50 values v3 same3 r50.enough r50.least part3;
                p95_right = part-IsPercentile 95 i95 values v2 same2 r95.enough r95.least part2;
                p99_right =
                    part-IsPercentile 99 i99 values v1 (λ f. nth.permutes f i99 values) r99.enough
                      r99.least part1;
                permuted = same3;
              })))

  -- Whatever function std::nth_element is, as long as it permutes its range and splits it at the
  -- asked element: for values that are not empty, with 100 times their number plus 99 below 2^64,
  -- `percentiles` fails no assertion and reads in bounds. Of the values that it is given, at least
  -- 50, 95 and 99 percent are at most p50, p95 and p99, and fewer are less. The values that it
  -- leaves are the given ones in some order.
  pub percentiles-HasPercentiles :
      (values : List ℕ)
      → values ≢ []
      → length values * 100 + 99 < u64_mod
      → HasPercentiles values (percentiles nth values)
  unfolding percentiles
  percentiles-HasPercentiles [] full small = absurd (full refl)
  percentiles-HasPercentiles (x ∷ xs) full small =
      let (i50, r50) =
        IsRank-of (length (x ∷ xs)) 50 (omega arith) (omega arith) (omega arith) (omega arith) in
      let (i95, r95) =
        IsRank-of (length (x ∷ xs)) 95 (omega arith) (omega arith) (omega arith) (omega arith) in
      let (i99, r99) =
        IsRank-of (length (x ∷ xs)) 99 (omega arith) (omega arith) (omega arith) (omega arith) in
      rw (r50.found, ◌>>=◌)
        (rw (r95.found, ◌>>=◌)
          (rw (r99.found, ◌>>=◌) (read_ranks (x ∷ xs) i50 i95 i99 r50 r95 r99)))
