-- ===== src/Io/Compare/Wins.antt =====
-- `win_counts` of src/atlas/io/compare.cpp.
use atlas_simulator.Prelude.{
  ℕ, zero, suc, ◌+◌, ◌-◌, ◌≤◌, ◌<◌, ◌≡◌, refl, ap, sym, subst, ◌∙◌, inl, inr, Bool-cases, List, [],
  ◌∷◌, Option, some, arith, ltb, ◌==◌, if◌then◌else◌, ◌>>=◌, get_elem?, get_elem?-in, get_elem?-lt,
  get_elem?-set_self, get_elem?-set_ne, get_elem?-unique, set, length, length-set, sum_of,
  sum_of-set, sum_of-get_elem?, add64, add64_exact, u64_mod, replicate, replicate-get,
  length-replicate, sum_of-replicate_zero,
}
use native.Mathlib.Decide.{ℕ_discrete}
use atlas_simulator.Io.Compare.{RunResult, Comparison, cell_at, best_of, count_wins, win_counts}

-- The rows are `n` lists that hold the cells of the first `m` columns.
pub record IsTable {ℓ} {A : Type ℓ} (rows : List (List A)) (n m : ℕ) (cells : ℕ → ℕ → A)
    : Type ℓ where
  pub height : length rows ≡ n
  pub filled : (i k : ℕ) → i < n → k < m → cell_at rows i k ≡ some (cells i k)

-- How often a number stands in a list.
abbrev pub occurrences : ℕ → List ℕ → ℕ
occurrences i = sum_of (λ b. if b == i then 1 else 0)

module _ {W : Type 0} (cells : ℕ → ℕ → RunResult W) (n : ℕ) where
  -- The first of the rows with the lowest 95th percentile of turnaround in column `k`.
  pub record IsWinner (k best : ℕ) : Type 0 where
    pub inside : best < n
    pub lowest : (i : ℕ) → i < n → (cells best k).p95_turnaround ≤ (cells i k).p95_turnaround
    pub first : (i : ℕ) → i < best → (cells best k).p95_turnaround < (cells i k).p95_turnaround

  -- The winners of the columns from `k` on.
  abbrev pub Winners : ℕ → List ℕ → Type 0
  Winners k [] = Unit
  Winners k (b ∷ bs) = IsWinner k b × Winners (suc k) bs

  module _ (rows : List (List (RunResult W))) (m : ℕ) (t : IsTable rows n m cells) where
    abbrev p95 : ℕ → ℕ → ℕ
    p95 i k = (cells i k).p95_turnaround

    extend : (P : ℕ → Type 0) (i : ℕ) → ((x : ℕ) → x < i → P x) → P i → (x : ℕ) → x < suc i → P x
    extend P i h p x lt = elim (ℕ_discrete x i) [
      | yes e ↦ subst P (sym e) p
      | no other ↦ h x (omega arith)
    ]

    best_of_lem :
        (k left i best : ℕ)
        → k < m
        → left + i ≡ n
        → best < i
        → ((x : ℕ) → x < i → p95 best k ≤ p95 x k)
        → ((x : ℕ) → x < best → p95 best k < p95 x k)
        → (b : ℕ) × (best_of rows k left i best ≡ some b) × IsWinner k b
    unfolding best_of
    best_of_lem k zero i best inside total behind low first = (
      best,
      refl,
      record { inside = omega arith; lowest = λ x lt. low x (omega arith); first = first },
    )
    best_of_lem k (suc left) i best inside total behind low first =
        rw (t.filled i k (omega arith) inside, ◌>>=◌)
          (rw (t.filled best k (omega arith) inside, ◌>>=◌)
            (elim (Bool-cases (ltb (p95 i k) (p95 best k))) [
              | inl less ↦
                  let lt : p95 i k < p95 best k = ground arith in
                  rw less (
                    best_of_lem k left (suc i) i inside (omega arith) (omega arith)
                      (extend (λ x. p95 i k ≤ p95 x k) i (λ x h. omega (arith, low x h))
                        (omega arith))
                      (λ x h. omega (arith, low x h)))
              | inr more ↦
                  let le : p95 best k ≤ p95 i k = ground arith in
                  rw more (
                    best_of_lem k left (suc i) best inside (omega arith) (omega arith)
                      (extend (λ x. p95 best k ≤ p95 x k) i low le) first)
            ]))

    -- What the outer loop makes of the counts that it starts from.
    record Counted (k left : ℕ) (wins : List ℕ) (r : Option (List ℕ)) : Type 0 where
      final : List ℕ
      winners : List ℕ
      result : r ≡ some final
      number : length winners ≡ left
      won : Winners k winners
      height : length final ≡ n
      counts :
          (i v : ℕ)
          → get_elem? wins i ≡ some v
          → get_elem? final i ≡ some (v + occurrences i winners)
      total : sum_of (λ v. v) final ≡ sum_of (λ v. v) wins + left

    count_one :
        (wins final winners : List ℕ) (best old : ℕ)
        → get_elem? wins best ≡ some old
        → ((i v : ℕ)
            → get_elem? (set wins best (old + 1)) i ≡ some v
            → get_elem? final i ≡ some (v + occurrences i winners))
        → (i v : ℕ) → get_elem? wins i ≡ some v
        → get_elem? final i ≡ some (v + occurrences i (best ∷ winners))
    count_one wins final winners best old at h i v there = elim (ℕ_discrete best i) [
      | yes e ↦
          let here = h i (old + 1) (
            ap (get_elem? (set wins best (old + 1))) (sym e)
            ∙ get_elem?-set_self wins best (old + 1) (get_elem?-lt wins best at)) in
          let v_old : v ≡ old = get_elem?-unique wins best i e at there in
          here ∙ ap some (ground (arith, v_old, e))
      | no other ↦
          h i v (get_elem?-set_ne wins best i (old + 1) other ∙ there) ∙ ap some (ground arith)
    ]

    count_wins_lem :
        (left k : ℕ) (wins : List ℕ)
        → 0 < n
        → left + k ≡ m
        → length wins ≡ n
        → sum_of (λ v. v) wins + left < u64_mod
        → Counted k left wins (count_wins rows left k wins)
    unfolding count_wins
    count_wins_lem zero k wins some_rows total long small = record {
      final = wins;
      winners = [];
      result = refl;
      number = refl;
      won = tt;
      height = long;
      counts = λ i v at. at ∙ ap some (omega arith);
      total = omega arith;
    }
    count_wins_lem (suc left) k wins some_rows total long small =
        let (best, found, w) =
          best_of_lem k (length rows - 1) 1 0 (omega arith) (omega (arith, t.height)) (omega arith)
            (λ x h. let same : x ≡ 0 = omega arith in rw same (omega arith)) (λ x h. elim h [ ]) in
        let (old, at) = get_elem?-in wins best (omega (arith, w.inside)) in
        let share = sum_of-get_elem? (λ v. v) wins best old at in
        let grown : add64 old 1 ≡ old + 1 = add64_exact old 1 (omega arith) in
        let sums = sum_of-set (λ v. v) wins best old (old + 1) at in
        let rest =
          count_wins_lem left (suc k) (set wins best (old + 1)) some_rows (omega arith)
            (length-set wins best (old + 1) ∙ long) (omega (arith, sums)) in
        rw (found, ◌>>=◌)
          (rw (at, ◌>>=◌)
            (rw grown (record {
              final = rest.final;
              winners = best ∷ rest.winners;
              result = rest.result;
              number = omega (arith, rest.number);
              won = (w, rest.won);
              height = rest.height;
              counts = count_one wins rest.final rest.winners best old at rest.counts;
              total = omega (arith, rest.total, sums);
            })))

-- The wins of a comparison: every seed has a winner, and every row has won as often as it is the
-- winner of a seed.
pub record HasWins {W : Type 0} (cmp : Comparison W) (cells : ℕ → ℕ → RunResult W)
    (r : Option (List ℕ)) : Type 0 where
  pub wins : List ℕ
  pub winners : List ℕ
  pub result : r ≡ some wins
  pub one_each : length winners ≡ cmp.seeds
  pub won : Winners cells (length cmp.rows) 0 winners
  pub height : length wins ≡ length cmp.rows
  pub counts : (i : ℕ) → i < length cmp.rows → get_elem? wins i ≡ some (occurrences i winners)
  pub total : sum_of (λ v. v) wins ≡ cmp.seeds

-- For a table with at least one row, fewer than 2^64 seeds and a cell for every row and seed:
-- `win_counts` reads in bounds, and there is a list with a winner for each seed, the first of the
-- rows with the lowest 95th percentile of turnaround on that seed. Each row's count is the number
-- of seeds that it is the winner of, and the counts sum to the seed count.
pub win_counts-HasWins :
    {W : Type 0} (cmp : Comparison W) (cells : ℕ → ℕ → RunResult W)
    → 0 < length cmp.rows
    → cmp.seeds < u64_mod
    → IsTable cmp.rows (length cmp.rows) cmp.seeds cells
    → HasWins cmp cells (win_counts cmp)
unfolding win_counts
win_counts-HasWins cmp cells some_rows small t =
    let n = length cmp.rows in
    let h =
      count_wins_lem cells n cmp.rows cmp.seeds t cmp.seeds 0 (replicate n 0) some_rows
        (omega arith) (length-replicate n 0) (omega (arith, sum_of-replicate_zero n)) in
    record {
      wins = h.final;
      winners = h.winners;
      result = h.result;
      one_each = h.number;
      won = h.won;
      height = h.height;
      counts = λ i lt. h.counts i 0 (replicate-get n i 0 lt) ∙ ap some (omega arith);
      total = omega (arith, h.total, sum_of-replicate_zero n);
    }
