-- ===== src/Model/Random.antt =====
-- src/atlas/model/random.hpp. A draw returns its value and the engine behind it; `none` is a failed
-- assertion.
use atlas_simulator.Prelude.{ℕ, ◌/◌, ◌%◌, ◌^◌, Option, some, ltb, assert, ◌>>◌, add64}
use atlas_simulator.Doubles.{Doubles, Engine}

-- A second in ticks: kSecond of src/atlas/engine/clock.hpp.
abbrev pub second : ℕ
second = 1000000

module _ {W E : Type 0} (d : Doubles W) (g : Engine E) where
  unfoldable pub next_uniform : E → W × E
  next_uniform e =
      let (random, e') = g.next e in
      (d.div (d.of_nat (add64 (random / 2 ^ 11) 1)) (d.of_nat (2 ^ 53)), e')

  unfoldable pub next_exponential : E → W → Option (ℕ × E)
  next_exponential e mean_ticks = do
    assert (d.lt (d.of_nat 0) mean_ticks)
    let (u, e') = next_uniform e
    some (d.to_nat (d.mul (d.neg (d.log u)) mean_ticks), e')

  unfoldable pub next_interarrival : E → W → Option (ℕ × E)
  next_interarrival e rate_per_second = do
    assert (d.lt (d.of_nat 0) rate_per_second)
    next_exponential e (d.mul (d.div (d.of_nat 1) rate_per_second) (d.of_nat second))

module _ {E : Type 0} (g : Engine E) where
  unfoldable pub next_below : E → ℕ → Option (ℕ × E)
  next_below e n = do assert (ltb 0 n); let (r, e') = g.next e; some (r % n, e')
