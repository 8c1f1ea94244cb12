-- ===== src/Model/Workload/Draws.antt =====
-- The two loops of `generate` in src/atlas/model/workload.hpp, for draws that stay below a bound.
use atlas_simulator.Prelude.{
  ℕ, zero, suc, ◌+◌, ◌*◌, ◌%◌, ◌^◌, ◌≤◌, ◌<◌, ◌≡◌, refl, ◌∙◌, true, List, [], ◌∷◌, Option, some,
  arith, All, All-get_elem?, lt→ltb, get_elem?, get_elem?-in, length, ◌>>=◌, add32, add64,
  add32_exact, add64_exact, u32_mod, u64_mod,
}
use atlas_simulator.Doubles.{Doubles, Engine, IsRounded}
use atlas_simulator.Model.Types.{Job, queued}
use atlas_simulator.Model.Random.{
  second, next_uniform, next_exponential, next_interarrival, next_below,
}
use atlas_simulator.Model.Workload.{JobProfile, job_profiles, new_job, draw_jobs}

-- The job was drawn with this id, after `cur`.
pub record IsDrawn (bound num cur : ℕ) (j : Job) : Type 0 where
  pub named : j.id ≡ num
  pub state : j.state ≡ queued
  pub which : ℕ
  pub profile : JobProfile
  pub at : get_elem? job_profiles which ≡ some profile
  pub asks : j.request ≡ profile.request
  pub short : j.duration ≤ bound
  pub after : cur ≤ j.submit_time
  pub near : j.submit_time ≤ cur + bound

-- Jobs numbered from `num` on, each submitted no earlier than the one before it.
abbrev pub Drawn : ℕ → ℕ → ℕ → List Job → Type 0
Drawn bound num cur [] = Unit
Drawn bound num cur (j ∷ js) = IsDrawn bound num cur j × Drawn bound (suc num) j.submit_time js

-- No estimate is less than the service time.
abbrev pub Padded : List Job → Type 0
Padded = All λ j. j.duration ≤ j.estimated_duration

module _ {W E : Type 0} (d : Doubles W) (g : Engine E) where
  -- What `next_exponential` gives for a mean that it accepts.
  abbrev pub drawn_value : E → W → W
  drawn_value e mean_ticks = d.mul (d.neg (d.log (next_uniform d g e).0)) mean_ticks

  abbrev pub draw : E → W → ℕ
  draw e mean_ticks = d.to_nat (drawn_value e mean_ticks)

  -- The double that a draw converts is between 0 and the bound.
  abbrev pub IsWithin : W → ℕ → Type 0
  IsWithin x bound = (d.le (d.of_nat 0) x ≡ true) × (d.le x (d.of_nat bound) ≡ true)

  abbrev pub gap_mean : W → W
  gap_mean rate = d.mul (d.div (d.of_nat 1) rate) (d.of_nat second)

  -- The rate is positive, and so is the mean gap; no double that is drawn exceeds the bound.
  pub record IsRate (rate : W) (bound : ℕ) : Type 0 where
    pub rate_pos : d.lt (d.of_nat 0) rate ≡ true
    pub gap_pos : d.lt (d.of_nat 0) (gap_mean rate) ≡ true
    pub gaps : (e : E) → IsWithin (drawn_value e (gap_mean rate)) bound
    pub durations :
        (e : E) (i : ℕ) (p : JobProfile)
        → get_elem? job_profiles i ≡ some p
        → IsWithin (drawn_value e (d.of_nat p.mean_duration)) bound

mean_pos : (i : ℕ) (p : JobProfile) → get_elem? job_profiles i ≡ some p → 0 < p.mean_duration
mean_pos i p at =
    All-get_elem? (λ p. 0 < p.mean_duration) job_profiles i
      (omega arith, (omega arith, (omega arith, (omega arith, tt)))) at

mean_small : (i : ℕ) (p : JobProfile) → get_elem? job_profiles i ≡ some p → p.mean_duration ≤ 2 ^ 53
mean_small i p at =
    All-get_elem? (λ p. p.mean_duration ≤ 2 ^ 53) job_profiles i
      (omega arith, (omega arith, (omega arith, (omega arith, tt)))) at

next_below_lem :
    {E : Type 0} (g : Engine E) (e : E) (n : ℕ)
    → 0 < n
    → (i : ℕ) × (e' : E) × (next_below g e n ≡ some (i, e')) × (i < n)
unfolding next_below
next_below_lem g e n h = ((g.next e).0 % n, (g.next e).1, rw (lt→ltb 0 n h) refl, grind arith)

module _ {W E : Type 0} (d : Doubles W) (g : Engine E) where
  next_exponential_lem :
      (e : E) (mean_ticks : W)
      → d.lt (d.of_nat 0) mean_ticks ≡ true
      → next_exponential d g e mean_ticks ≡ some (draw d g e mean_ticks, (next_uniform d g e).1)
  unfolding next_exponential
  next_exponential_lem e mean_ticks h = rw h refl

  next_interarrival_lem :
      (e : E) (rate : W) (bound : ℕ)
      → IsRate d g rate bound
      → next_interarrival d g e rate ≡ some (draw d g e (gap_mean d g rate), (next_uniform d g e).1)
  unfolding next_interarrival
  next_interarrival_lem e rate bound v =
      rw v.rate_pos (next_exponential_lem e (gap_mean d g rate) v.gap_pos)

  module _ (rounded : IsRounded d) (rate : W) (bound : ℕ) (v : IsRate d g rate bound)
      (small : bound ≤ 2 ^ 53) where
    draw_le : (e : E) (x : W) → IsWithin d g (drawn_value d g e x) bound → draw d g e x ≤ bound
    draw_le e x (low, high) = rounded.to_nat_le bound _ small low high

    pub record HasDrawn (left num cur : ℕ) (r : Option (List Job × E)) : Type 0 where
      pub jobs : List Job
      pub engine : E
      pub result : r ≡ some (jobs, engine)
      pub number : length jobs ≡ left
      pub drawn : Drawn bound num cur jobs

    pub draw_jobs_lem :
        (left num cur : ℕ) (e : E)
        → num + left < u32_mod
        → cur + left * bound < u64_mod
        → HasDrawn left num cur (draw_jobs d g rate left num cur e)
    unfolding draw_jobs
    draw_jobs_lem zero num cur e few room = record {
      jobs = [];
      engine = e;
      result = refl;
      number = refl;
      drawn = tt;
    }
    draw_jobs_lem (suc left) num cur e few room =
        let split : suc left * bound ≡ left * bound + bound = grind arith in
        let (i, e1, chosen, inside) = next_below_lem g e (length job_profiles) (omega arith) in
        let (p, at) = get_elem?-in job_profiles i inside in
        let mean = d.of_nat p.mean_duration in
        let e2 = (next_uniform d g e1).1 in
        let gap = draw d g e2 (gap_mean d g rate) in
        let short : gap ≤ bound = draw_le e2 (gap_mean d g rate) (v.gaps e2) in
        let later : add64 cur gap ≡ cur + gap = add64_exact cur gap (omega arith) in
        let counted : add32 num 1 ≡ suc num = add32_exact num 1 (omega arith) ∙ omega arith in
        let rest =
          draw_jobs_lem left (suc num) (cur + gap) (next_uniform d g e2).1 (omega arith)
            (omega arith) in
        rw (chosen, ◌>>=◌)
          (rw (at, ◌>>=◌)
            (rw
              (
                next_exponential_lem e1 mean
                    (rounded.pos p.mean_duration (mean_pos i p at) (mean_small i p at)),
                ◌>>=◌,
              )
              (rw (next_interarrival_lem e2 rate bound v, ◌>>=◌)
                (rw (later, counted)
                  (rw (rest.result, ◌>>=◌)
                    (record {
                      jobs = new_job num p.request (draw d g e1 mean) (cur + gap) ∷ rest.jobs;
                      engine = rest.engine;
                      result = refl;
                      number = omega (arith, rest.number);
                      drawn = (
                        record {
                          named = refl;
                          state = refl;
                          which = i;
                          profile = p;
                          at = at;
                          asks = refl;
                          short = draw_le e1 mean (v.durations e1 i p at);
                          after = omega arith;
                          near = omega arith;
                        },
                        rest.drawn,
                      );
                    }))))))
