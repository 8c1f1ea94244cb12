-- ===== src/Engine/Events/Order.antt =====
-- The order in which src/atlas/engine/event_queue.hpp gives events back.
use atlas_simulator.Prelude.{
  ℕ, ◌+◌, ◌≤◌, ◌<◌, ◌≡◌, refl, sym, ◌≢◌, ◌⊎◌, inl, inr, true, false, List, [], ◌∷◌, some, arith,
  if◌then◌else◌, Bool-cases, All, sum_of, add64, add64_exact, u64_mod,
}
use mathlib.Core.List.{Perm}
use mathlib.Core.List.Perm
use atlas_simulator.Engine.Events.{
  EventPayload, Event, earliest_first, EventQueue, schedule, take_top, pop,
}

-- Earlier, or at the same time and scheduled before.
abbrev pub Before : Event → Event → Type 0
Before a b = (a.time < b.time) ⊎ ((a.time ≡ b.time) × (a.seq < b.seq))

Before-trans : (a b c : Event) → Before a b → Before b c → Before a c
Before-trans a b c h k = ground arith

earliest_first-Before : (a b : Event) → earliest_first a b ≡ true → Before b a
unfolding earliest_first
earliest_first-Before a b h = ground arith

not_earliest_first-Before : (a b : Event) → b.seq ≢ a.seq → earliest_first a b ≡ false → Before a b
unfolding earliest_first
not_earliest_first-Before a b other h = ground arith

-- No two events carry the same sequence number.
abbrev pub Distinct : List Event → Type 0
Distinct [] = Unit
Distinct (e ∷ es) = All (λ x. x.seq ≢ e.seq) es × Distinct es

-- Sequence numbers are distinct and were given out already.
pub record IsQueue (q : EventQueue) : Type 0 where
  pub distinct : Distinct q.heap
  pub given : All (λ e. e.seq < q.next_seq) q.heap

-- The more important of two events, and the other, as `take_top` chooses them.
abbrev winner : Event → Event → Event
winner best e = if earliest_first best e then e else best

abbrev loser : Event → Event → Event
loser best e = if earliest_first best e then best else e

choose {κ} :
    (P : Event → Type κ) (best e : Event) → P best → P e → P (winner best e) × P (loser best e)
choose P best e h k = elim (Bool-cases (earliest_first best e)) [
  | inl later ↦ rw later (k, h)
  | inr first ↦ rw first (h, k)
]

winner-Before : (best e : Event) → e.seq ≢ best.seq → Before (winner best e) (loser best e)
winner-Before best e other = elim (Bool-cases (earliest_first best e)) [
  | inl later ↦ rw later (earliest_first-Before best e later)
  | inr first ↦ rw first (not_earliest_first-Before best e other first)
]

-- Whatever holds of all events of the heap holds of the top and of the rest.
pub take_top-All {κ} :
    (P : Event → Type κ) (best : Event) (es : List Event)
    → P best
    → All P es
    → P (take_top best es).0 × All P (take_top best es).1
unfolding take_top
take_top-All P best [] h k = (h, tt)
take_top-All P best (e ∷ es) h k =
    let (w, l) = choose P best e h k.0 in
    let (top, rest) = take_top-All P (winner best e) es w k.1 in (top, (l, rest))

-- A sum over the heap is the top's part and the rest's.
pub sum_of-take_top :
    (f : Event → ℕ) (best : Event) (es : List Event)
    → f (take_top best es).0 + sum_of f (take_top best es).1 ≡ f best + sum_of f es
unfolding take_top
sum_of-take_top f best [] = refl
sum_of-take_top f best (e ∷ es) = elim (Bool-cases (earliest_first best e)) [
  | inl later ↦ rw later (omega (arith, sum_of-take_top f e es))
  | inr first ↦ rw first (omega (arith, sum_of-take_top f best es))
]

-- The top is the first candidate or comes before it; it comes before the rest, and the sequence
-- numbers of the rest stay distinct.
record IsTop (best : Event) (top : Event) (rest : List Event) : Type 0 where
  candidate : (top ≡ best) ⊎ Before top best
  before : All (Before top) rest
  distinct : Distinct rest

Before-loser : (top w l : Event) → (top ≡ w) ⊎ Before top w → Before w l → Before top l
Before-loser top w l (inl same) h = rw same h
Before-loser top w l (inr first) h = Before-trans top w l first h

candidate-best :
    (top best e : Event)
    → e.seq ≢ best.seq
    → (top ≡ winner best e) ⊎ Before top (winner best e)
    → (top ≡ best) ⊎ Before top best
candidate-best top best e other h = elim (Bool-cases (earliest_first best e)) [
  | inl later ↦ inr (Before-loser top e best (rw later at h) (earliest_first-Before best e later))
  | inr first ↦ rw first at h
]

All-symm : (a : Event) (es : List Event) → All (λ x. x.seq ≢ a.seq) es → All (λ x. a.seq ≢ x.seq) es
All-symm a [] h = tt
All-symm a (e ∷ es) h = ((λ p. h.0 (sym p)), All-symm a es h.1)

winner-ne-loser : (best e : Event) → e.seq ≢ best.seq → (winner best e).seq ≢ (loser best e).seq
winner-ne-loser best e other = elim (Bool-cases (earliest_first best e)) [
  | inl later ↦ rw later other
  | inr first ↦ rw first (λ p. other (sym p))
]

take_top-IsTop :
    (best : Event) (es : List Event)
    → Distinct (best ∷ es)
    → IsTop best (take_top best es).0 (take_top best es).1
unfolding take_top
take_top-IsTop best [] d = record { candidate = inl refl; before = tt; distinct = tt }
take_top-IsTop best (e ∷ es) d =
    let w = winner best e in
    let apart = choose (λ x. All (λ y. y.seq ≢ x.seq) es) best e d.0.1 d.1.0 in
    let ih = take_top-IsTop w es (apart.0, d.1.1) in
    record {
      candidate = candidate-best _ best e d.0.0 ih.candidate;
      before =
          (Before-loser _ w (loser best e) ih.candidate (winner-Before best e d.0.0), ih.before);
      distinct = (
        (take_top-All (λ y. y.seq ≢ (loser best e).seq) w es (winner-ne-loser best e d.0.0)
            apart.1).1,
        ih.distinct,
      );
    }

take_top-perm :
    (best : Event) (es : List Event)
    → Perm (best ∷ es) ((take_top best es).0 ∷ (take_top best es).1)
unfolding take_top
take_top-perm best [] = Perm.refl _
take_top-perm best (e ∷ es) = elim (Bool-cases (earliest_first best e)) [
  | inl later ↦ rw later (Perm.trans (Perm.cons best (take_top-perm e es)) (Perm.swap _ best _))
  | inr first ↦ rw first (
      Perm.trans (Perm.swap e best es)
        (Perm.trans (Perm.cons e (take_top-perm best es)) (Perm.swap _ e _)))
]

fresh : (n : ℕ) (es : List Event) → All (λ e. e.seq < n) es → All (λ e. e.seq ≢ n) es
fresh n [] h = tt
fresh n (e ∷ es) h = (omega arith, fresh n es h.1)

below_mono : (m n : ℕ) (es : List Event) → m ≤ n → All (λ e. e.seq < m) es → All (λ e. e.seq < n) es
below_mono m n [] le h = tt
below_mono m n (e ∷ es) le h = (omega arith, below_mono m n es le h.1)

pub schedule-IsQueue :
    (q : EventQueue) (time : ℕ) (payload : EventPayload)
    → IsQueue q
    → q.next_seq + 1 < u64_mod
    → IsQueue (schedule q time payload)
unfolding schedule
schedule-IsQueue q time payload v room = record {
  distinct = (fresh q.next_seq q.heap v.given, v.distinct);
  given =
      let grown : add64 q.next_seq 1 ≡ q.next_seq + 1 = add64_exact q.next_seq 1 room in
      (omega (arith, grown), below_mono q.next_seq _ q.heap (omega (arith, grown)) v.given);
}

-- What `pop` takes from a queue, and what it leaves.
pub record IsPop (q : EventQueue) (e : Event) (q' : EventQueue) : Type 0 where
  pub contents : Perm q.heap (e ∷ q'.heap)
  pub earliest : All (Before e) q'.heap
  pub is_queue : IsQueue q'
  pub counter : q'.next_seq ≡ q.next_seq

-- The same with what holds of all events, and with sums over them.
pub record Popped (q : EventQueue) : Type 1 where
  pub event : Event
  pub rest : EventQueue
  pub result : pop q ≡ some (event, rest)
  pub is_pop : IsPop q event rest
  pub all : (P : Event → Type 0) → All P q.heap → P event × All P rest.heap
  pub sums : (f : Event → ℕ) → sum_of f q.heap ≡ f event + sum_of f rest.heap

pop_heap :
    (heap : List Event) (n : ℕ)
    → let q : EventQueue = record { heap = heap; next_seq = n } in IsQueue q → heap ≢ [] → Popped q
unfolding pop
pop_heap [] n v full = absurd (full refl)
pop_heap (b ∷ es) n v full =
    let top = take_top-IsTop b es v.distinct in
    record {
      event = (take_top b es).0;
      rest = record { heap = (take_top b es).1; next_seq = n };
      result = refl;
      is_pop = record {
        contents = take_top-perm b es;
        earliest = top.before;
        is_queue = record {
          distinct = top.distinct;
          given = (take_top-All (λ x. x.seq < n) b es v.given.0 v.given.1).1;
        };
        counter = refl;
      };
      all = λ P h. take_top-All P b es h.0 h.1;
      sums = λ f. sym (sum_of-take_top f b es);
    }

pub pop-Popped : (q : EventQueue) → IsQueue q → q.heap ≢ [] → Popped q
pop-Popped q v full = pop_heap q.heap q.next_seq v full

-- A queue with distinct sequence numbers that is not empty gives back one of its events and keeps
-- the others; every event that it keeps is later, or at the same time and scheduled after it. The
-- sequence numbers stay distinct.
pub pop-IsPop :
    (q : EventQueue)
    → IsQueue q
    → q.heap ≢ []
    → (e : Event) × (q' : EventQueue) × (pop q ≡ some (e, q')) × IsPop q e q'
pop-IsPop q v full = let p = pop-Popped q v full in (p.event, p.rest, p.result, p.is_pop)

-- The only event of a queue.
pub pop_only :
    (q : EventQueue) (time : ℕ) (payload : EventPayload)
    → q.heap ≡ []
    → pop (schedule q time payload)
      ≡ some (
        (record { time = time; seq = q.next_seq; payload = payload }),
        (record { heap = []; next_seq = add64 q.next_seq 1 }),
      )
unfolding pop schedule
pop_only q time payload e = rw (e, take_top) refl
