-- ===== src/Metrics/Samples/Times.antt =====
-- The samples of src/atlas/metrics/time_sample.cpp, against the jobs that they are drawn from.
use atlas_simulator.Prelude.{
  ℕ, suc, inl, inr, ◌+◌, ◌<◌, ◌-◌, ◌≤◌, ◌≡◌, ◌≢◌, ◌⊎◌, All, ap, ◌∙◌, map, sub64, sub64_exact, refl,
  true, false, ◌==◌, List, [], ◌∷◌, some, arith, length, add64_exact, u64_mod, get_elem?,
}
use atlas_simulator.Model.Types.{Job, JobState, queued, running as is_on_node, done, never}
use atlas_simulator.Metrics.Samples.{sample, is_done, turnaround_times, queue_wait_times}

-- What turnaround_times should take from the jobs: each job that is done, and only such a job, gives
-- the time that leads from its submission to its finish; the others are counted.
pub data Taken : List Job → ℕ → List ℕ → Type 0 where
  none_left : Taken [] 0 []
  takes :
      (j : Job) (js : List Job) (skipped time : ℕ) (times : List ℕ)
      → j.state ≡ done
      → j.submit_time + time ≡ j.finish_time
      → Taken js skipped times
      → Taken (j ∷ js) skipped (time ∷ times)
  skips :
      (j : Job) (js : List Job) (skipped : ℕ) (times : List ℕ)
      → j.state ≢ done
      → Taken js skipped times
      → Taken (j ∷ js) (skipped + 1) times

-- A job that is done finished no earlier than it was submitted.
abbrev pub FinishesLater : List Job → Type 0
FinishesLater =
    All λ (j : Job). j.state ≡ done → (j.submit_time ≤ j.finish_time) × (j.finish_time < u64_mod)

done_cases :
    (state : JobState)
    → ((is_done state ≡ true) × (state ≡ done)) ⊎ ((is_done state ≡ false) × (state ≢ done))
done_cases queued = inr (refl, λ e. cc)
done_cases is_on_node = inr (refl, λ e. cc)
done_cases done = inl (refl, refl)

skipped-le :
    (jobs : List Job) → length jobs < u64_mod → (turnaround_times jobs).skipped ≤ length jobs
unfolding turnaround_times sample
skipped-le [] small = omega arith
skipped-le (j ∷ js) small =
    let rest = skipped-le js (omega arith) in
    let more = add64_exact (turnaround_times js).skipped 1 (omega (arith, rest)) in
    elim (done_cases j.state) [
      | inl (yes_done, e) ↦ rw yes_done (omega (arith, rest))
      | inr (not_done, other) ↦ rw not_done (omega (arith, rest, more))
    ]

-- For fewer than 2^64 jobs, of which those that are done finished no earlier than they were
-- submitted, at a time below 2^64: `turnaround_times` holds, in the order of the jobs, the time from
-- submission to finish of each job that is done, and counts the others as skipped.
pub turnaround_times-Taken :
    (jobs : List Job)
    → length jobs < u64_mod
    → FinishesLater jobs
    → Taken jobs (turnaround_times jobs).skipped (turnaround_times jobs).times
unfolding turnaround_times sample
turnaround_times-Taken [] small h = none_left
turnaround_times-Taken (j ∷ js) small h =
    let s = turnaround_times js in
    let rest = turnaround_times-Taken js (omega arith) h.1 in
    let more = add64_exact s.skipped 1 (omega (arith, skipped-le js (omega arith))) in
    elim (done_cases j.state) [
      | inl (yes_done, e) ↦
          let (le, fits) = h.0 e in
          let time = sub64_exact j.finish_time j.submit_time le fits in
          rw yes_done (takes j js s.skipped _ s.times e (omega (arith, time)) rest)
      | inr (not_done, other) ↦ rw (not_done, more) (skips j js s.skipped s.times other rest)
    ]

-- Where all jobs are done and no earlier than they were submitted, the differences are exact.
pub turnaround_times_exact :
    (jobs : List Job)
    → ((id : ℕ) (j : Job) → get_elem? jobs id ≡ some j → j.state ≡ done)
    → (f : Job → ℕ)
    → ((id : ℕ) (j : Job)
        → get_elem? jobs id ≡ some j
        → (j.finish_time - j.submit_time ≡ f j)
          × (j.submit_time ≤ j.finish_time)
          × (j.finish_time < u64_mod))
    → ((turnaround_times jobs).skipped ≡ 0) × ((turnaround_times jobs).times ≡ map f jobs)
unfolding turnaround_times sample
turnaround_times_exact [] all f h = (refl, refl)
turnaround_times_exact (j ∷ js) all f h =
    let (skipped, times) =
      turnaround_times_exact js (λ id x at. all (suc id) x at) f (λ id x at. h (suc id) x at) in
    let (same, le, fits) = h 0 j refl in
    let exact : sub64 j.finish_time j.submit_time ≡ f j =
      sub64_exact j.finish_time j.submit_time le fits ∙ same in
    let counted : is_done j.state ≡ true = ap is_done (all 0 j refl) in
    rw (counted, exact) (skipped, ap (◌∷◌ (f j)) times)

-- The time from a job's submission to its start.
abbrev pub wait_of : Job → ℕ
wait_of j = j.start_time - j.submit_time

-- Where all jobs have started, and no earlier than they were submitted, the sample of waits is
-- exact.
pub queue_wait_times_exact :
    (jobs : List Job)
    → ((id : ℕ) (j : Job)
        → get_elem? jobs id ≡ some j
        → (j.submit_time ≤ j.start_time) × (j.start_time < never))
    → ((queue_wait_times jobs).skipped ≡ 0) × ((queue_wait_times jobs).times ≡ map wait_of jobs)
unfolding queue_wait_times sample
queue_wait_times_exact [] h = (refl, refl)
queue_wait_times_exact (j ∷ js) h =
    let (skipped, times) = queue_wait_times_exact js (λ id x at. h (suc id) x at) in
    let (le, early) = h 0 j refl in
    let started : (j.start_time == never) ≡ false = ground arith in
    rw (started, sub64_exact j.start_time j.submit_time le (omega arith))
      (skipped, ap (◌∷◌ (wait_of j)) times)
