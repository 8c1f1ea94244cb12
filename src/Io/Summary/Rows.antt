-- ===== src/Io/Summary/Rows.antt =====
-- The lines of the table of src/atlas/io/compare.cpp.
use atlas_simulator.Prelude.{
  ℕ, zero, suc, ◌+◌, ◌<◌, ◌≡◌, refl, ap, sym, subst, ◌∙◌, true, List, [], ◌∷◌, Option, none, some,
  arith, not, ◌==◌, ◌>>=◌, get_elem?, get_elem?-in, length, u64_mod,
}
use atlas_simulator.Doubles.{Doubles}
use atlas_simulator.Io.Compare.{RunResult, Comparison, win_counts}
use atlas_simulator.Io.Compare.Wins.{IsTable, win_counts-HasWins}
use atlas_simulator.Io.Summary.{
  PairedDelta, ReportRow, Report, deltas, paired_delta, delta_of, report_row, report_rows,
  report_comparison,
}

-- What holds of a first entry and of the others.
cons-at :
    {A : Type 0} (P : ℕ → A → Type 0) (i : ℕ) (a : A) (rest : List A)
    → P i a
    → ((x : ℕ) (b : A) → get_elem? rest x ≡ some b → P (suc i + x) b)
    → (x : ℕ) (b : A) → get_elem? (a ∷ rest) x ≡ some b
    → P (i + x) b
cons-at P i a rest h k zero b at =
    let same : a ≡ b = cc in
    let first : i ≡ i + 0 = omega arith in subst (λ y. P y b) first (subst (P i) same h)
cons-at P i a rest h k (suc x) b at =
    let shift : suc i + x ≡ i + suc x = omega arith in subst (λ y. P y b) shift (k x b at)

module _ {W : Type 0} (d : Doubles W) (cmp : Comparison W) (cells : ℕ → ℕ → RunResult W)
    (t : IsTable cmp.rows (length cmp.rows) cmp.seeds cells) where
  deltas-in :
      (row baseline left k : ℕ)
      → row < length cmp.rows
      → baseline < length cmp.rows
      → left + k ≡ cmp.seeds
      → (values : List W) × (deltas d cmp row baseline left k ≡ some values)
        × (length values ≡ left)
  unfolding deltas
  deltas-in row baseline zero k lt lt' total = ([], refl, refl)
  deltas-in row baseline (suc left) k lt lt' total =
      let (values, found, number) = deltas-in row baseline left (suc k) lt lt' (omega arith) in
      rw (t.filled row k lt (omega arith), ◌>>=◌)
        (rw (t.filled baseline k lt' (omega arith), ◌>>=◌)
          (rw (found, ◌>>=◌) (_, refl, omega (arith, number))))

  delta_of-in :
      (i : ℕ)
      → i < length cmp.rows
      → (delta : Option (PairedDelta W)) × (delta_of d cmp i ≡ some delta) × (i ≡ 0 → delta ≡ none)
  unfolding delta_of paired_delta
  delta_of-in zero lt = (none, refl, λ e. refl)
  delta_of-in (suc i) lt =
      let (values, found, number) =
        deltas-in (suc i) 0 cmp.seeds 0 lt (omega arith) (omega arith) in
      rw (found, ◌>>=◌) (_, refl, λ e. absurd (omega arith))

  -- The lines from row `i` on.
  record Lines (wins : List ℕ) (i : ℕ) (rows : List (List (RunResult W)))
      (r : Option (List (ReportRow W))) : Type 0 where
    lines : List (ReportRow W)
    result : r ≡ some lines
    labels :
        (x : ℕ) (line : ReportRow W)
        → get_elem? lines x ≡ some line
        → get_elem? cmp.labels (i + x) ≡ some line.label
    won :
        (x : ℕ) (line : ReportRow W)
        → get_elem? lines x ≡ some line
        → get_elem? wins (i + x) ≡ some line.wins
    baseline :
        (x : ℕ) (line : ReportRow W) → get_elem? lines x ≡ some line → i + x ≡ 0 → line.delta ≡ none
    number : length lines ≡ length rows

  report_rows-Lines :
      (wins : List ℕ) (i : ℕ) (rows : List (List (RunResult W)))
      → 0 < cmp.seeds
      → i + length rows ≡ length cmp.rows
      → length cmp.labels ≡ length cmp.rows
      → length wins ≡ length cmp.rows
      → Lines wins i rows (report_rows d cmp wins i rows)
  unfolding report_rows report_row
  report_rows-Lines wins i [] some_seeds total long high = record {
    lines = [];
    result = refl;
    labels = λ x line at. cc;
    won = λ x line at. cc;
    baseline = λ x line at. cc;
    number = refl;
  }
  report_rows-Lines wins i (row ∷ rows) some_seeds total long high =
      let (delta, given, bare) = delta_of-in i (omega arith) in
      let (label, named) = get_elem?-in cmp.labels i (omega arith) in
      let (won, counted) = get_elem?-in wins i (omega arith) in
      let rest = report_rows-Lines wins (suc i) rows some_seeds (omega arith) long high in
      let divides : not (cmp.seeds == 0) ≡ true = ground arith in
      rw (given, ◌>>=◌)
        (rw (named, ◌>>=◌)
          (rw (counted, ◌>>=◌)
            (rw divides (
              rw (rest.result, ◌>>=◌)
                (record {
                  lines = _;
                  result = refl;
                  labels =
                      cons-at (λ y line. get_elem? cmp.labels y ≡ some line.label) i _ rest.lines
                        named rest.labels;
                  won =
                      cons-at (λ y line. get_elem? wins y ≡ some line.wins) i _ rest.lines counted
                        rest.won;
                  baseline =
                      cons-at (λ y line. y ≡ 0 → line.delta ≡ none) i _ rest.lines bare
                        rest.baseline;
                  number = omega (arith, rest.number);
                })))))

-- The table has a line for each row of the comparison, in order, with the row's label and wins.
pub record Reports {W : Type 0} (cmp : Comparison W) (r : Option (Report W)) : Type 0 where
  pub report : Report W
  pub wins : List ℕ
  pub result : r ≡ some report
  pub counted : win_counts cmp ≡ some wins
  pub number : length report.rows ≡ length cmp.rows
  pub labels :
      (i : ℕ) (line : ReportRow W)
      → get_elem? report.rows i ≡ some line
      → get_elem? cmp.labels i ≡ some line.label
  pub won :
      (i : ℕ) (line : ReportRow W)
      → get_elem? report.rows i ≡ some line
      → get_elem? wins i ≡ some line.wins
  pub baseline : (line : ReportRow W) → get_elem? report.rows 0 ≡ some line → line.delta ≡ none

-- For a comparison with at least one row and one seed, fewer than 2^64 seeds, a cell for every row
-- and seed, and a label for each row: `report_comparison` reads in bounds and divides by no zero
-- count. Its table has a line for each row, in order, with the label and the wins of that row, and
-- its first line, the baseline, has no delta.
pub report_comparison-Reports :
    {W : Type 0} (d : Doubles W) (cmp : Comparison W) (cells : ℕ → ℕ → RunResult W)
    → 0 < length cmp.rows
    → 0 < cmp.seeds
    → cmp.seeds < u64_mod
    → IsTable cmp.rows (length cmp.rows) cmp.seeds cells
    → length cmp.labels ≡ length cmp.rows
    → Reports cmp (report_comparison d cmp)
unfolding report_comparison
report_comparison-Reports d cmp cells some_rows some_seeds small t long =
    let w = win_counts-HasWins cmp cells some_rows small t in
    let l =
      report_rows-Lines d cmp cells t w.wins 0 cmp.rows some_seeds (omega arith) long w.height in
    let first : (i : ℕ) → 0 + i ≡ i = λ i. omega arith in
    rw (w.result, ◌>>=◌)
      (rw (l.result, ◌>>=◌)
        (record {
          report = _;
          wins = w.wins;
          result = refl;
          counted = w.result;
          number = l.number;
          labels = λ i line at. ap (get_elem? cmp.labels) (sym (first i)) ∙ l.labels i line at;
          won = λ i line at. ap (get_elem? w.wins) (sym (first i)) ∙ l.won i line at;
          baseline = λ line at. l.baseline 0 line at (omega arith);
        }))
