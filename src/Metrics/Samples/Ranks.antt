-- ===== src/Metrics/Samples/Ranks.antt =====
-- The nearest rank of src/atlas/metrics/percentiles.cpp.
use atlas_simulator.Prelude.{
  ℕ, ◌+◌, ◌*◌, ◌/◌, ◌-◌, ◌≤◌, ◌<◌, ◌≡◌, refl, some, arith, lt→ltb, le→leb, sub64_exact, add64_exact,
  mul64_exact, u64_mod, suc,
}
use atlas_simulator.Metrics.Samples.{percentile_rank}

-- For a sample of `n` values, `0 < p ≤ 100` and no overflow in `n * p + 99`, the rank is an index
-- into the sample; the values up to the one at the rank are at least `p` percent of all, and the
-- values before it are less.
pub percentile_rank_lem :
    (n p : ℕ)
    → 0 < n
    → 0 < p
    → p ≤ 100
    → n * p + 99 < u64_mod
    → (rank : ℕ) × (percentile_rank n p ≡ some rank)
      × (rank < n)
      × (n * p ≤ 100 * suc rank)
      × (100 * rank < n * p)
unfolding percentile_rank
percentile_rank_lem n p some_n some_p most small =
    let below : n * p ≤ n * 100 = grind arith in
    let above : 0 < n * p = grind arith in
    let q = (n * p + 99) / 100 in
    (
      q - 1,
      rw
          (
            lt→ltb 0 n some_n,
            lt→ltb 0 p some_p,
            le→leb p 100 most,
            mul64_exact n p (omega arith),
            add64_exact (n * p) 99 small,
            sub64_exact q 1 (omega arith) (omega arith),
          )
          refl,
      omega arith,
      omega arith,
      omega arith,
    )
