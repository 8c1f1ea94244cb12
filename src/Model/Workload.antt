-- ===== src/Model/Workload.antt =====
-- src/atlas/model/workload.hpp and profiles.hpp.
pub mod Draws
pub mod Jobs
pub mod Steady
mod Tests
use atlas_simulator.Prelude.{
  ℕ, zero, suc, ◌*◌, ◌≡◌, Bool, List, [], ◌∷◌, Option, none, some, get_elem?, length, assert, ◌>>=◌,
  ◌>>◌, add32, add64,
}
use atlas_simulator.Doubles.{Doubles, Engine}
use atlas_simulator.Model.Types.{Resources, Job, queued, never}
use atlas_simulator.Model.Random.{
  second, next_uniform, next_exponential, next_interarrival, next_below,
}

-- A profile without its name, which nothing reads.
pub record JobProfile : Type 0 where
  pub request : Resources
  pub mean_duration : ℕ

abbrev profile : ℕ → ℕ → ℕ → JobProfile
profile cores memory_mb seconds = record {
  request = record { cores = cores; memory_mb = memory_mb };
  mean_duration = seconds * second;
}

abbrev pub job_profiles : List JobProfile
job_profiles =
    profile 1 2048 30 ∷ profile 4 8192 120 ∷ profile 16 32768 600 ∷ profile 4 49152 600 ∷ []

abbrev pub default_resources : Resources
default_resources = record { cores = 16; memory_mb = 65536 }

pub record WorkloadGenerator (W E : Type 0) : Type 0 where
  pub rng : E
  pub arrival_rate : W
  pub estimate_padding : W

-- The job as the first loop of `generate` makes it.
abbrev pub new_job : ℕ → Resources → ℕ → ℕ → Job
new_job id request duration submit_time = record {
  id = id;
  request = request;
  duration = duration;
  estimated_duration = 0;
  submit_time = submit_time;
  start_time = never;
  finish_time = never;
  node = 0;
  state = queued;
}

module _ {W E : Type 0} (d : Doubles W) (g : Engine E) where
  unfoldable pub make_generator : ℕ → W → W → Option (WorkloadGenerator W E)
  make_generator seed arrival_rate_per_second estimate_padding = do
    assert (d.lt (d.of_nat 0) arrival_rate_per_second)
    assert (d.le (d.of_nat 0) estimate_padding)
    some (record {
      rng = g.start seed;
      arrival_rate = arrival_rate_per_second;
      estimate_padding = estimate_padding;
    })

  -- The first loop: `left` more jobs from `num` on, the last arrival at `cur_tick`.
  pub draw_jobs : W → ℕ → ℕ → ℕ → E → Option (List Job × E)
  draw_jobs rate zero num cur_tick e = some ([], e)
  draw_jobs rate (suc left) num cur_tick e = do
    (which, e1) ← next_below g e (length job_profiles)
    profile ← get_elem? job_profiles which
    (duration, e2) ← next_exponential d g e1 (d.of_nat profile.mean_duration)
    (gap, e3) ← next_interarrival d g e2 rate
    (jobs, e4) ← draw_jobs rate left (add32 num 1) (add64 cur_tick gap) e3
    some (new_job num profile.request duration (add64 cur_tick gap) ∷ jobs, e4)

  -- The second loop.
  pub draw_estimates : W → List Job → E → List Job × E
  draw_estimates estimate_padding [] e = ([], e)
  draw_estimates estimate_padding (j ∷ js) e =
      let (u, e') = next_uniform d g e in
      let padding = d.add (d.of_nat 1) (d.mul estimate_padding u) in
      let (rest, e'') = draw_estimates estimate_padding js e' in
      (record j { estimated_duration = d.to_nat (d.mul (d.of_nat j.duration) padding) } ∷ rest, e'')

  unfoldable pub generate : WorkloadGenerator W E → ℕ → Option (List Job × WorkloadGenerator W E)
  unfolding draw_jobs draw_estimates
  generate w count = do
    (jobs, e) ← draw_jobs w.arrival_rate count 0 0 w.rng
    let (estimated, e') = draw_estimates w.estimate_padding jobs e
    some (estimated, record w { rng = e' })
