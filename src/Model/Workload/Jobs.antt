-- ===== src/Model/Workload/Jobs.antt =====
-- The jobs that `generate` of src/atlas/model/workload.hpp returns.
use atlas_simulator.Prelude.{
  ℕ, zero, suc, ◌+◌, ◌*◌, ◌/◌, ◌^◌, ◌≤◌, ◌<◌, ◌≡◌, refl, ap, sym, ◌∙◌, true, List, [], ◌∷◌, Option,
  some, arith, All, get_elem?, length, sum_of, ◌>>=◌, u32_mod, u64_mod, add64, add64_exact,
}
use atlas_simulator.Doubles.{Doubles, Engine, IsRounded}
use atlas_simulator.Model.Types.{Job, queued}
use atlas_simulator.Model.Random.{next_uniform}
use atlas_simulator.Model.Workload.{
  JobProfile, job_profiles, WorkloadGenerator, draw_estimates, generate,
}
use atlas_simulator.Model.Workload.Draws.{Drawn, Padded, IsRate, draw_jobs_lem}

Drawn-numbers :
    (bound num cur : ℕ) (js : List Job) (id : ℕ) (j : Job)
    → Drawn bound num cur js
    → get_elem? js id ≡ some j
    → j.id ≡ num + id
Drawn-numbers bound num cur [] id j v at = cc
Drawn-numbers bound num cur (x ∷ js) zero j v at =
    let same : x ≡ j = cc in omega (arith, ap (λ (y : Job). y.id) same, v.0.named)
Drawn-numbers bound num cur (x ∷ js) (suc id) j v at =
    omega (arith, Drawn-numbers bound (suc num) x.submit_time js id j v.1 at)

-- The ids are the indices.
pub Drawn-ids :
    (bound cur : ℕ) (js : List Job) (id : ℕ) (j : Job)
    → Drawn bound 0 cur js
    → get_elem? js id ≡ some j
    → j.id ≡ id
Drawn-ids bound cur js id j v at = omega (arith, Drawn-numbers bound 0 cur js id j v at)

pub Drawn-queued :
    (bound num cur : ℕ) (js : List Job)
    → Drawn bound num cur js
    → All (λ (j : Job). j.state ≡ queued) js
Drawn-queued bound num cur [] v = tt
Drawn-queued bound num cur (j ∷ js) v =
    (v.0.state, Drawn-queued bound (suc num) j.submit_time js v.1)

-- Every arrival comes within a bound for each job.
pub Drawn-submits :
    (bound num cur total : ℕ) (js : List Job)
    → cur + length js * bound ≤ total
    → Drawn bound num cur js
    → All (λ (j : Job). j.submit_time ≤ total) js
Drawn-submits bound num cur total [] h v = tt
Drawn-submits bound num cur total (j ∷ js) h v =
    let split : suc (length js) * bound ≡ length js * bound + bound = grind arith in
    let later = v.0.near in
    (omega arith, Drawn-submits bound (suc num) j.submit_time total js (omega arith) v.1)

pub Drawn-asks :
    (bound num cur : ℕ) (js : List Job) (id : ℕ) (j : Job)
    → Drawn bound num cur js
    → get_elem? js id ≡ some j
    → (i : ℕ) × (p : JobProfile) × (get_elem? job_profiles i ≡ some p) × (j.request ≡ p.request)
Drawn-asks bound num cur [] id j v at = cc
Drawn-asks bound num cur (x ∷ js) zero j v at =
    let same : x ≡ j = cc in
    let first = v.0 in
    (first.which, first.profile, first.at, sym (ap (λ (y : Job). y.request) same) ∙ first.asks)
Drawn-asks bound num cur (x ∷ js) (suc id) j v at =
    Drawn-asks bound (suc num) x.submit_time js id j v.1 at

-- A sum of service times.
pub Drawn-sum :
    (f : Job → ℕ) (bound num cur : ℕ) (js : List Job)
    → ((j : Job) → f j ≤ j.duration)
    → Drawn bound num cur js
    → sum_of f js ≤ length js * bound
Drawn-sum f bound num cur [] h v = omega arith
Drawn-sum f bound num cur (j ∷ js) h v =
    let split : suc (length js) * bound ≡ length js * bound + bound = grind arith in
    let brief = v.0.short in omega (arith, h j, Drawn-sum f bound (suc num) j.submit_time js h v.1)

module _ {W E : Type 0} (d : Doubles W) (g : Engine E) where
  draw_estimates-Drawn :
      (padding : W) (bound num cur : ℕ) (js : List Job) (e : E)
      → Drawn bound num cur js
      → Drawn bound num cur (draw_estimates d g padding js e).0
  unfolding draw_estimates
  draw_estimates-Drawn padding bound num cur [] e v = tt
  draw_estimates-Drawn padding bound num cur (j ∷ js) e v = (
    record {
      named = v.0.named;
      state = v.0.state;
      which = v.0.which;
      profile = v.0.profile;
      at = v.0.at;
      asks = v.0.asks;
      short = v.0.short;
      after = v.0.after;
      near = v.0.near;
    },
    draw_estimates-Drawn padding bound (suc num) j.submit_time js (next_uniform d g e).1 v.1,
  )

  length-draw_estimates :
      (padding : W) (js : List Job) (e : E) → length (draw_estimates d g padding js e).0 ≡ length js
  unfolding draw_estimates
  length-draw_estimates padding [] e = refl
  length-draw_estimates padding (j ∷ js) e =
      ap suc (length-draw_estimates padding js (next_uniform d g e).1)

  -- The factor of an estimate.
  abbrev factor : W → E → W
  factor padding e = d.add (d.of_nat 1) (d.mul padding (next_uniform d g e).0)

  factor_lem :
      (rounded : IsRounded d) (padding : W) (most : ℕ) (e : E)
      → d.le (d.of_nat 0) padding ≡ true
      → d.le padding (d.of_nat most) ≡ true
      → most + 1 ≤ 2 ^ 53
      → (d.le (d.of_nat 1) (factor padding e) ≡ true)
        × (d.le (factor padding e) (d.of_nat (most + 1)) ≡ true)
  unfolding next_uniform
  factor_lem rounded padding most e low high few =
      let below = g.below e in
      let random = (g.next e).0 in
      let top : random / 2 ^ 11 + 1 ≤ 2 ^ 53 = omega arith in
      let exact : add64 (random / 2 ^ 11) 1 ≡ random / 2 ^ 11 + 1 =
        add64_exact (random / 2 ^ 11) 1 (omega arith) in
      let (pos, one) =
        rounded.unit (add64 (random / 2 ^ 11) 1) (2 ^ 53) (omega (arith, exact, top)) (omega arith)
          (omega arith) in
      let (added, bounded) = rounded.mul_unit most padding _ (omega arith) low high pos one in
      rounded.add_one most _ few added bounded

  draw_estimates-Padded :
      (rounded : IsRounded d) (padding : W) (bound most num cur : ℕ) (js : List Job) (e : E)
      → d.le (d.of_nat 0) padding ≡ true
      → d.le padding (d.of_nat most) ≡ true
      → bound ≤ 2 ^ 53
      → most + 1 ≤ 2 ^ 53
      → bound * (most + 1) ≤ 2 ^ 63
      → Drawn bound num cur js
      → Padded (draw_estimates d g padding js e).0
  unfolding draw_estimates
  draw_estimates-Padded rounded padding bound most num cur [] e low high small few room v = tt
  draw_estimates-Padded rounded padding bound most num cur (j ∷ js) e low high small few room v =
      let brief = v.0.short in
      let (one, top) = factor_lem rounded padding most e low high few in
      let fits : j.duration * (most + 1) ≤ 2 ^ 63 = grind arith in
      (
        rounded.mul_grows j.duration (most + 1) _ (omega arith) few fits one top,
        draw_estimates-Padded rounded padding bound most (suc num) j.submit_time js
            (next_uniform d g e).1 low high small few room v.1,
      )

  -- What `generate` comes to.
  pub record Generated (bound count : ℕ) (r : Option (List Job × WorkloadGenerator W E))
      : Type 0 where
    pub jobs : List Job
    pub generator : WorkloadGenerator W E
    pub result : r ≡ some (jobs, generator)
    pub number : length jobs ≡ count
    pub drawn : Drawn bound 0 0 jobs
    pub padded : Padded jobs

  -- Doubles that round as IEEE 754 says; a positive arrival rate with a positive mean gap; no
  -- double drawn for a gap or a service time below 0 or above a bound of at most 2^53; fewer than
  -- 2^32 jobs, and a product of their number and the bound below 2^64; a padding from 0 to a whole
  -- number below 2^53, for which the bound times one more is at most 2^63. Then `generate`
  -- fails no assertion and returns as many jobs as it is asked for. They are numbered from 0 on
  -- and queued, each asks for what a profile asks for, submit times do not descend, no service
  -- time is above the bound, and no estimate is below the service time.
  pub generate-Generated :
      (rounded : IsRounded d) (w : WorkloadGenerator W E) (bound most count : ℕ)
      → IsRate d g w.arrival_rate bound
      → d.le (d.of_nat 0) w.estimate_padding ≡ true
      → d.le w.estimate_padding (d.of_nat most) ≡ true
      → bound ≤ 2 ^ 53
      → most + 1 ≤ 2 ^ 53
      → bound * (most + 1) ≤ 2 ^ 63
      → count < u32_mod
      → count * bound < u64_mod
      → Generated bound count (generate d g w count)
  unfolding generate
  generate-Generated rounded w bound most count v low high small few fits jobs room =
      let h =
        draw_jobs_lem d g rounded w.arrival_rate bound v small count 0 0 w.rng (omega arith)
          (omega arith) in
      let padding = w.estimate_padding in
      rw (h.result, ◌>>=◌)
        (record {
          jobs = (draw_estimates d g padding h.jobs h.engine).0;
          generator = record w { rng = (draw_estimates d g padding h.jobs h.engine).1 };
          result = refl;
          number = length-draw_estimates padding h.jobs h.engine ∙ h.number;
          drawn = draw_estimates-Drawn padding bound 0 0 h.jobs h.engine h.drawn;
          padded =
              draw_estimates-Padded rounded padding bound most 0 0 h.jobs h.engine low high small
                few fits h.drawn;
        })
