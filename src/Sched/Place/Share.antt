-- ===== src/Sched/Place/Share.antt =====
-- src/atlas/sched/dominant_share.hpp: the comparison by cross multiplication, against the
-- fractions that it compares.
use atlas_simulator.Prelude.{
  ℕ, ◌*◌, ◌≤◌, ◌<◌, ◌≡◌, Bool, true, false, arith, ltb, ltb→lt, lt→ltb, lt→le, not_ltb→le,
  mul64_exact, u32_mod, u64_mod, ◌⊎◌,
}
use native.Mathlib.Nat.{lt_of_mul-lt-mul_right, mul-lt-mul_of_pos_right, mul-le-mul_right}
use atlas_simulator.Model.Types.{Resources}
use atlas_simulator.Sched.Place.{DominantShare, share_lt, dominant_share}

-- A share of a capacity that is not zero, with both numbers in 32 bits.
pub record IsShare (s : DominantShare) : Type 0 where
  pub used_fits : s.used < u32_mod
  pub capacity_fits : s.capacity < u32_mod
  pub some_capacity : 0 < s.capacity

mul_small : (a b : ℕ) → a < u32_mod → b < u32_mod → a * b < u64_mod
mul_small a b h k = grind arith

pub share_lt_exact :
    (a b : DominantShare)
    → IsShare a
    → IsShare b
    → share_lt a b ≡ ltb (a.used * b.capacity) (b.used * a.capacity)
unfolding share_lt
share_lt_exact a b v w = rw (
  mul64_exact a.used b.capacity (mul_small _ _ v.used_fits w.capacity_fits),
  mul64_exact b.used a.capacity (mul_small _ _ w.used_fits v.capacity_fits),
)

-- Comparing fractions over positive denominators.
pub lt_le_fractions : (a p b q c r : ℕ) → 0 < r → a * q < b * p → b * r ≤ c * q → a * r < c * p
lt_le_fractions a p b q c r pos h k =
    lt_of_mul-lt-mul_right q
      (omega (arith, mul-lt-mul_of_pos_right {k = r} h pos, mul-le-mul_right p k))

pub le_lt_fractions : (a p b q c r : ℕ) → 0 < p → a * q ≤ b * p → b * r < c * q → a * r < c * p
le_lt_fractions a p b q c r pos h k =
    lt_of_mul-lt-mul_right q
      (omega (arith, mul-le-mul_right r h, mul-lt-mul_of_pos_right {k = p} k pos))

-- A better-than test that orders the shares of 32 bits.
pub record IsOrder (better : DominantShare → DominantShare → Bool) : Type 0 where
  pub trans :
      (a b c : DominantShare)
      → IsShare a
      → IsShare b
      → IsShare c
      → better a b ≡ true
      → better b c ≡ true
      → better a c ≡ true
  pub beats_unbeaten :
      (a b c : DominantShare)
      → IsShare a
      → IsShare b
      → IsShare c
      → better a b ≡ true
      → better c b ≡ false
      → better a c ≡ true

pub less-IsOrder : IsOrder share_lt
less-IsOrder = record {
  trans = λ a b c u v w h k. rw (share_lt_exact a c u w) (
      lt→ltb _ _ (
        lt_le_fractions a.used a.capacity b.used b.capacity c.used c.capacity w.some_capacity
          (ltb→lt _ _ (rw (share_lt_exact a b u v) at h))
          (lt→le (ltb→lt _ _ (rw (share_lt_exact b c v w) at k)))));
  beats_unbeaten = λ a b c u v w h k. rw (share_lt_exact a c u w) (
      lt→ltb _ _ (
        lt_le_fractions a.used a.capacity b.used b.capacity c.used c.capacity w.some_capacity
          (ltb→lt _ _ (rw (share_lt_exact a b u v) at h))
          (not_ltb→le _ _ (rw (share_lt_exact c b w v) at k))));
}

pub more-IsOrder : IsOrder (λ a b. share_lt b a)
more-IsOrder = record {
  trans = λ a b c u v w h k. less-IsOrder.trans c b a w v u k h;
  beats_unbeaten = λ a b c u v w h k. rw (share_lt_exact c a w u) (
      lt→ltb _ _ (
        le_lt_fractions c.used c.capacity b.used b.capacity a.used a.capacity w.some_capacity
          (not_ltb→le _ _ (rw (share_lt_exact b c v w) at k))
          (ltb→lt _ _ (rw (share_lt_exact b a v u) at h))));
}

-- The dominant share is one of the two shares, and the other does not exceed it.
pub dominant_share_lem :
    (used capacity : Resources)
    → IsShare (record { used = used.cores; capacity = capacity.cores })
    → IsShare (record { used = used.memory_mb; capacity = capacity.memory_mb })
    → let share = dominant_share used capacity in
      ((share ≡ record { used = used.cores; capacity = capacity.cores })
        ⊎ (share ≡ record { used = used.memory_mb; capacity = capacity.memory_mb }))
      × (used.cores * share.capacity ≤ share.used * capacity.cores)
      × (used.memory_mb * share.capacity ≤ share.used * capacity.memory_mb)
unfolding dominant_share
dominant_share_lem used capacity v w =
    rw
      (share_lt_exact (record { used = used.cores; capacity = capacity.cores })
        (record { used = used.memory_mb; capacity = capacity.memory_mb }) v w)
      (ground arith)

pub dominant_share-IsShare :
    (used capacity : Resources)
    → used.cores ≤ capacity.cores
    → used.memory_mb ≤ capacity.memory_mb
    → 0 < capacity.cores
    → 0 < capacity.memory_mb
    → capacity.cores < u32_mod
    → capacity.memory_mb < u32_mod
    → IsShare (dominant_share used capacity)
unfolding dominant_share
dominant_share-IsShare used capacity h k pc pm bc bm = ground arith
