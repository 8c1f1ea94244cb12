-- ===== src/Sched/Factory/Names.antt =====
-- What the tables of src/atlas/sched/factory.cpp and queue_factory.cpp promise.
use Prim.Native.String.{String}
use text.Mathlib.Text.{◌==◌}
use text.Mathlib.TextEquality.{eq_iff}
use atlas_simulator.Prelude.{
  ℕ, zero, suc, ◌<◌, ◌≡◌, refl, ap, sym, ◌≢◌, ◌⊎◌, inl, inr, true, false, List, Option, none, some,
  arith, All, Bool-cases, get_elem?,
}
use atlas_simulator.Sched.Place.{first_fit, round_robin, least_loaded, resource_aware}
use atlas_simulator.Sched.Place.Any.{IsReady}
use atlas_simulator.Sched.Queue.{fifo, backfill}
use atlas_simulator.Sched.Factory.{
  scheduler_names, scheduler_name, make_scheduler, queue_policy_names, queue_policy_name,
  make_queue_policy,
}

-- A table of names agrees with a factory on one text: the text is none of the names and gives
-- nothing, or it is one of them and gives an object that carries it as its name and is as a new
-- object should be.
abbrev pub Serves {ℓ} :
    {A : Type ℓ} → List String → (A → String) → (A → Type 0) → String → Option A → Type ℓ
Serves {A = A} names name fresh text r =
    (All (λ n. text ≢ n) names × (r ≡ none))
    ⊎ ((i : ℕ) × (get_elem? names i ≡ some text)
        × (a : A) × (r ≡ some a)
        × (name a ≡ text)
        × fresh a)

tests : (s t : String) → ((s == t) ≡ true × (s ≡ t)) ⊎ ((s == t) ≡ false × (s ≢ t))
tests s t = elim (Bool-cases (s == t)) [
  | inl h ↦ inl (h, (eq_iff s t).0 h)
  | inr h ↦ inr (h, λ e. cc ((eq_iff s t).1 e))
]

-- Each text that is not in `scheduler_names` makes no scheduler; each that is makes one that
-- bears this name and is ready for a cluster of any size.
pub make_scheduler-Serves :
    (text : String)
    → Serves scheduler_names scheduler_name
        (λ s. (count : ℕ) → IsReady s count)
        text
        (make_scheduler text)
unfolding make_scheduler
make_scheduler-Serves text = elim (tests text "first_fit") [
  | inl (t, e) ↦ inr (0, ap some (sym e), first_fit, rw t, sym e, λ count. tt)
  | inr (t1, n1) ↦ elim (tests text "round_robin") [
    | inl (t, e) ↦ inr (1, ap some (sym e), round_robin 0, rw (t1, t), sym e, round_robin_ready)
    | inr (t2, n2) ↦ elim (tests text "least_loaded") [
      | inl (t, e) ↦ inr (2, ap some (sym e), least_loaded, rw (t1, t2, t), sym e, λ count. tt)
      | inr (t3, n3) ↦ elim (tests text "resource_aware") [
        | inl (t, e) ↦
            inr (3, ap some (sym e), resource_aware, rw (t1, t2, t3, t), sym e, λ count. tt)
        | inr (t4, n4) ↦ inl ((n1, (n2, (n3, (n4, tt)))), rw (t1, t2, t3, t4))
      ]
    ]
  ]
]
  where
    round_robin_ready : (count : ℕ) → (0 < count) ⊎ (count ≡ 0)
    round_robin_ready zero = inr refl
    round_robin_ready (suc n) = inl (omega arith)

-- Each text that is not in `queue_policy_names` makes no queue policy; each that is makes one that
-- bears this name.
pub make_queue_policy-Serves :
    (text : String)
    → Serves queue_policy_names queue_policy_name (λ p. Unit) text (make_queue_policy text)
unfolding make_queue_policy
make_queue_policy-Serves text = elim (tests text "fifo") [
  | inl (t, e) ↦ inr (0, ap some (sym e), fifo, rw t, sym e, tt)
  | inr (t1, n1) ↦ elim (tests text "backfill") [
    | inl (t, e) ↦ inr (1, ap some (sym e), backfill, rw (t1, t), sym e, tt)
    | inr (t2, n2) ↦ inl ((n1, (n2, tt)), rw (t1, t2))
  ]
]
