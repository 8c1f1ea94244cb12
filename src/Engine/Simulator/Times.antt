-- ===== src/Engine/Simulator/Times.antt =====
-- The times that src/atlas/engine/simulator.cpp writes to jobs and events, from step to step.
use atlas_simulator.Prelude.{
  ◌<◌, ℕ, ◌+◌, ◌≤◌, ◌≡◌, refl, ap, sym, subst, ◌∙◌, ◌⊎◌, inl, inr, List, [], ◌∷◌, some, arith, All,
  get_elem?, set, get_elem?-set_cases,
}
use native.Mathlib.Decide.{ℕ_discrete}
use atlas_simulator.Model.Types.{Job, JobState, queued, running as is_on_node, done}
use atlas_simulator.Engine.Events.{
  EventPayload, job_arrival, job_finish, sim_end, Event, EventQueue,
}
use atlas_simulator.Engine.Events.Order.{Popped}
use atlas_simulator.Engine.Simulator.{start_job}
use atlas_simulator.Engine.Simulator.Ledger.{
  arrivals, arrivals_in, finishes, finishes_in, PayloadTimes, JobTimes, Times, is_self,
}

-- A job is replaced by one that was submitted at the same time, and ends at the same time unless no
-- finish of it is to come.
module _ (jobs : List Job) (id : ℕ) (j j' : Job) (at : get_elem? jobs id ≡ some j)
    (submitted : j'.submit_time ≡ j.submit_time) where
  PayloadTimes-set :
      (time : ℕ) (p : EventPayload)
      → (finishes_in id p ≡ 0) ⊎ (j'.start_time + j'.duration ≡ j.start_time + j.duration)
      → PayloadTimes jobs time p
      → PayloadTimes (set jobs id j') time p
  PayloadTimes-set time (job_arrival job) h m = λ i there.
      elim (get_elem?-set_cases jobs id job j' i there) [
        | inl (same, new) ↦
            m j (ap (get_elem? jobs) same ∙ at)
            ∙ sym submitted
            ∙ ap (λ (x : Job). x.submit_time) (sym new)
        | inr (other, old) ↦ m i old
      ]
  PayloadTimes-set time (job_finish job node) h m = λ i there.
      elim (get_elem?-set_cases jobs id job j' i there) [
        | inl (same, new) ↦ elim h [
          | inl none_to_come ↦ absurd (is_self id job (sym same) none_to_come)
          | inr ends ↦
              m j (ap (get_elem? jobs) same ∙ at)
              ∙ sym ends
              ∙ ap (λ (x : Job). x.start_time + x.duration) (sym new)
        ]
        | inr (other, old) ↦ m i old
      ]
  PayloadTimes-set time sim_end h m = tt

  heap_timed :
      (heap : List Event)
      → (finishes id heap ≡ 0) ⊎ (j'.start_time + j'.duration ≡ j.start_time + j.duration)
      → All (λ e. PayloadTimes jobs e.time e.payload) heap
      → All (λ e. PayloadTimes (set jobs id j') e.time e.payload) heap
  heap_timed [] h m = tt
  heap_timed (e ∷ es) (inl h) m = (
    PayloadTimes-set e.time e.payload (inl (omega arith)) m.0,
    heap_timed es (inl (omega arith)) m.1,
  )
  heap_timed (e ∷ es) (inr h) m =
      (PayloadTimes-set e.time e.payload (inr h) m.0, heap_timed es (inr h) m.1)

pub JobTimes-arrived :
    (state : JobState) (arriving now : ℕ) (j : Job)
    → state ≡ queued
    → arriving ≡ 0
    → JobTimes state arriving now j
    → j.submit_time ≤ now
JobTimes-arrived queued arriving now j waits none_to_come (inl h) = absurd (omega arith)
JobTimes-arrived queued arriving now j waits none_to_come (inr h) = h
JobTimes-arrived is_on_node arriving now j waits none_to_come h = absurd (cc (waits))
JobTimes-arrived done arriving now j waits none_to_come h = absurd (cc (waits))

-- The clock moves on, and at most an arrival of a job that was submitted by then is gone.
JobTimes-later :
    (state : JobState) (a a' now now' : ℕ) (j : Job)
    → now ≤ now'
    → (a ≡ a') ⊎ (j.submit_time ≤ now')
    → JobTimes state a now j
    → JobTimes state a' now' j
JobTimes-later queued a a' now now' j le (inl same) (inl h) = inl (omega arith)
JobTimes-later queued a a' now now' j le (inl same) (inr h) = inr (omega arith)
JobTimes-later queued a a' now now' j le (inr came) h = inr came
JobTimes-later is_on_node a a' now now' j le c h = (h.0, omega arith)
JobTimes-later done a a' now now' j le c h = (h.0, h.1, omega arith)

JobTimes-started :
    (state : JobState) (a now : ℕ) (j : Job)
    → state ≡ is_on_node
    → JobTimes state a now j
    → j.submit_time ≤ j.start_time
JobTimes-started queued a now j runs h = absurd (cc (runs))
JobTimes-started is_on_node a now j runs h = h.0
JobTimes-started done a now j runs h = absurd (cc (runs))

-- A start writes the time of the clock, and schedules the end of the service.
pub Times-start :
    (now node : ℕ) (jobs : List Job) (id : ℕ) (j : Job) (heap : List Event) (e : Event)
    → get_elem? jobs id ≡ some j
    → j.state ≡ queued
    → arrivals id heap ≡ 0
    → finishes id heap ≡ 0
    → e.payload ≡ job_finish id node
    → e.time ≡ now + j.duration
    → Times now jobs heap
    → Times now (set jobs id (start_job j now node)) (e ∷ heap)
Times-start now node jobs id j heap e at waits arrived no_end names timed v =
    let none_new : (x : ℕ) → arrivals_in x e.payload ≡ 0 = λ x. ap (arrivals_in x) names in
    record {
      events_timed = (
        subst (PayloadTimes (set jobs id (start_job j now node)) e.time) (sym names) (λ i there.
            elim (get_elem?-set_cases jobs id id (start_job j now node) i there) [
              | inl (same, new) ↦ timed ∙ ap (λ (x : Job). x.start_time + x.duration) (sym new)
              | inr (other, old) ↦ absurd (other refl)
            ]),
        heap_timed jobs id j (start_job j now node) at refl heap (inl no_end) v.events_timed,
      );
      jobs_timed = λ x i there.
          elim (get_elem?-set_cases jobs id x (start_job j now node) i there) [
            | inl (same, new) ↦
                rw new (
                  JobTimes-arrived j.state _ now j waits arrived (v.jobs_timed id j at),
                  omega arith,
                )
            | inr (other, old) ↦
                JobTimes-later i.state _ _ now now i (omega arith) (inl (omega (arith, none_new x)))
                  (v.jobs_timed x i old)
          ];
    }

-- A finish at the end of the service writes the time of the clock.
pub Times-finish :
    (now : ℕ) (jobs : List Job) (id : ℕ) (j : Job) (heap : List Event)
    → get_elem? jobs id ≡ some j
    → j.state ≡ is_on_node
    → now ≡ j.start_time + j.duration
    → Times now jobs heap
    → Times now (set jobs id (record j { finish_time = now; state = done })) heap
Times-finish now jobs id j heap at runs ends v =
    let j' : Job = record j { finish_time = now; state = done } in
    record {
      events_timed = heap_timed jobs id j j' at refl heap (inr refl) v.events_timed;
      jobs_timed = λ x i there. elim (get_elem?-set_cases jobs id x j' i there) [
        | inl (same, new) ↦
            rw new (JobTimes-started j.state _ now j runs (v.jobs_timed id j at), ends, omega arith)
        | inr (other, old) ↦ v.jobs_timed x i old
      ];
    }

came :
    (jobs : List Job) (time : ℕ) (p : EventPayload) (x : ℕ) (i : Job)
    → PayloadTimes jobs time p
    → get_elem? jobs x ≡ some i
    → (arrivals_in x p ≡ 0) ⊎ (i.submit_time ≤ time)
came jobs time (job_arrival job) x i m at = elim (ℕ_discrete job x) [
  | yes same ↦ inr (omega (arith, m i (ap (get_elem? jobs) same ∙ at)))
  | no other ↦ inl (ground arith)
]
came jobs time (job_finish job node) x i m at = inl refl
came jobs time sim_end x i m at = inl refl

-- The clock moves on to an event that is taken off the queue.
pub Times-pop :
    (now : ℕ) (jobs : List Job) (q : EventQueue) (p : Popped q)
    → now ≤ p.event.time
    → Times now jobs q.heap
    → Times p.event.time jobs p.rest.heap
Times-pop now jobs q p le v =
    let (mine, others) = p.all (λ e. PayloadTimes jobs e.time e.payload) v.events_timed in
    record {
      events_timed = others;
      jobs_timed = λ x i at.
          JobTimes-later i.state _ _ now p.event.time i le
            (elim (came jobs p.event.time p.event.payload x i mine at) [
              | inl none_new ↦ inl (omega (arith, p.sums (λ e. arrivals_in x e.payload)))
              | inr h ↦ inr h
            ])
            (v.jobs_timed x i at);
    }

-- A job whose finish is to come has not been given more than its service.
pub due :
    (jobs : List Job) (id : ℕ) (j : Job) (time : ℕ) (p : EventPayload)
    → get_elem? jobs id ≡ some j
    → PayloadTimes jobs time p
    → (finishes_in id p ≡ 0) ⊎ (time ≡ j.start_time + j.duration)
due jobs id j time (job_arrival job) at m = inl refl
due jobs id j time (job_finish job node) at m = elim (ℕ_discrete job id) [
  | yes same ↦ inr (m j (ap (get_elem? jobs) same ∙ at))
  | no other ↦ inl (ground arith)
]
due jobs id j time sim_end at m = inl refl

pub within :
    (now : ℕ) (jobs : List Job) (id : ℕ) (j : Job) (heap : List Event)
    → get_elem? jobs id ≡ some j
    → All (λ e. now ≤ e.time) heap
    → All (λ e. PayloadTimes jobs e.time e.payload) heap
    → 0 < finishes id heap
    → now ≤ j.start_time + j.duration
within now jobs id j [] at le m h = absurd (omega arith)
within now jobs id j (e ∷ es) at le m h = elim (due jobs id j e.time e.payload at m.0) [
  | inl none_here ↦ within now jobs id j es at le.1 m.1 (omega (arith, none_here))
  | inr ends ↦ omega (arith, ends, le.0)
]
