-- ===== src/Model/Workload/Steady.antt =====
-- The draws of src/atlas/model/random.hpp in whole numbers, at one job a second.
use atlas_simulator.Prelude.{
  ℕ, ◌*◌, ◌≡◌, refl, arith, true, leb, le→leb, All-get_elem?, get_elem?, some,
}
use atlas_simulator.Doubles.{whole, counter}
use atlas_simulator.Model.Workload.{JobProfile, job_profiles}
use atlas_simulator.Model.Workload.Draws.{IsRate, IsWithin}

profiles_short :
    (e i : ℕ) (p : JobProfile)
    → get_elem? job_profiles i ≡ some p
    → IsWithin whole counter (1 * p.mean_duration) 600000000
profiles_short e i p at = (
  le→leb 0 (1 * p.mean_duration) (omega arith),
  All-get_elem? (λ p. leb (1 * p.mean_duration) 600000000 ≡ true) job_profiles i
      (refl, (refl, (refl, (refl, tt)))) at,
)

pub one_a_second : IsRate whole counter 1 600000000
one_a_second = record {
  rate_pos = refl;
  gap_pos = refl;
  gaps = λ e. (refl, refl);
  durations = profiles_short;
}
