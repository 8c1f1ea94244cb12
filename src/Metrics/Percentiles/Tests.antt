-- ===== src/Metrics/Percentiles/Tests.antt =====
-- The order statistics of five values.
use atlas_simulator.Prelude.{ℕ, List, [], ◌∷◌, arith}
use atlas_simulator.Metrics.Percentiles.{percentiles}
use atlas_simulator.Metrics.Percentiles.Nearest.{HasPercentiles, percentiles-HasPercentiles}
use atlas_simulator.Metrics.Percentiles.Sorting.{sorting}

abbrev five : List ℕ
five = 9 ∷ 2 ∷ 7 ∷ 2 ∷ 4 ∷ []

percentiles-HasPercentiles_example : HasPercentiles five (percentiles sorting five)
percentiles-HasPercentiles_example = percentiles-HasPercentiles sorting five (λ e. cc) (omega arith)
