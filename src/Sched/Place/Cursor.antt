-- ===== src/Sched/Place/Cursor.antt =====
-- The loop of src/atlas/sched/round_robin.cpp and its cursor.
use atlas_simulator.Prelude.{
  ℕ, zero, suc, ◌+◌, ◌≤◌, ◌<◌, ◌%◌, ◌≡◌, refl, subst, ◌≢◌, ◌⊎◌, inl, inr, false, List, [], ◌∷◌,
  Option, none, some, arith, get_elem?, length, Bool-cases, get_elem?-in, add64, add64_exact, ◌==◌,
  u64_mod, ==_iff,
}
use native.Mathlib.Decide.{dec_lt, ℕ_discrete}
use native.Mathlib.Nat.{mod-eq_of_lt, mod_self}
use atlas_simulator.Model.Types.{Resources, Node, can_fit}
use atlas_simulator.Sched.Place.{round_robin_loop, round_robin_place}
use atlas_simulator.Sched.Place.Contract.{Answers, Refused}

pub next_inside : (p n : ℕ) → p + 1 < n → n < u64_mod → add64 p 1 % n ≡ p + 1
next_inside p n h k = rw (add64_exact p 1 (omega arith)) (mod-eq_of_lt h)

pub next_wraps : (p n : ℕ) → p + 1 ≡ n → n < u64_mod → add64 p 1 % n ≡ 0
next_wraps p n h k = rw (add64_exact p 1 (omega arith), h) (mod_self n)

module _ (request : Resources) (nodes : List Node) where
  -- The node at this index cannot take the request.
  RefusedAt : ℕ → Type 0
  RefusedAt i = (m : Node) → get_elem? nodes i ≡ some m → can_fit m request ≡ false

Refused-all :
    (request : Resources) (ns : List Node)
    → ((i : ℕ) → i < length ns → RefusedAt request ns i)
    → Refused request ns
unfolding RefusedAt
Refused-all request [] h = tt
Refused-all request (n ∷ ns) h =
    (h 0 (omega arith) n refl, Refused-all request ns (λ i lt. h (suc i) (omega arith)))

-- The loop ends with an answer and a cursor inside the nodes.
pub record Ends (request : Resources) (nodes : List Node) (r : Option (Option ℕ × ℕ)) : Type 0 where
  pub answer : Option ℕ
  pub cursor : ℕ
  pub result : r ≡ some (answer, cursor)
  pub right : Answers request nodes answer
  pub inside : cursor < length nodes

tight_at :
    (request : Resources) (nodes : List Node) (m m' : Node) (q : ℕ)
    → get_elem? nodes q ≡ some m
    → get_elem? nodes q ≡ some m'
    → can_fit m request ≡ false
    → can_fit m' request ≡ false
tight_at request nodes m m' q at at' tight =
    let same : m ≡ m' = cc in subst (λ n. can_fit n request ≡ false) same tight

module _ (request : Resources) (nodes : List Node) (start : ℕ)
    (small : length nodes < u64_mod) where
  -- One round at the index `q`: found, given up, or on to the next.
  round-Ends :
      (left p q : ℕ)
      → add64 p 1 % length nodes ≡ q
      → q < length nodes
      → (RefusedAt request nodes q → q ≡ start → Refused request nodes)
      → (RefusedAt request nodes q
          → q ≢ start
          → Ends request nodes (round_robin_loop request nodes start left q))
      → Ends request nodes (round_robin_loop request nodes start (suc left) p)
  unfolding round_robin_loop RefusedAt
  round-Ends left p q step lt stop go =
      let (m, at) = get_elem?-in nodes q lt in
      rw (step, round_robin_loop)
        (rw (at, round_robin_loop)
          (rw step (elim (Bool-cases (can_fit m request)) [
            | inl fit ↦ rw fit (record {
              answer = some m.id;
              cursor = q;
              result = refl;
              right = record { node = m; index = q; at = at; named = refl; fits = fit };
              inside = lt;
            })
            | inr tight ↦
                let here : RefusedAt request nodes q =
                  λ m' at'. tight_at request nodes m m' q at at' tight in
                elim (Bool-cases (q == start)) [
                  | inl met ↦
                      rw (tight, met)
                        (record {
                          answer = none;
                          cursor = q;
                          result = refl;
                          right = stop here ((==_iff q start).0 met);
                          inside = lt;
                        })
                  | inr other ↦ rw (tight, other) (go here (λ e. cc ((==_iff q start).1 e)))
                ]
          ])))

  -- From the wrapped half of the round: everything behind `start` and up to `p` is refused.
  wrapped-Ends :
      (left p : ℕ)
      → p + left ≡ start
      → p < start
      → start < length nodes
      → ((i : ℕ) → i < length nodes → (start < i) ⊎ (i ≤ p) → RefusedAt request nodes i)
      → Ends request nodes (round_robin_loop request nodes start left p)
  wrapped-Ends zero p sum lt inside seen = absurd (omega arith)
  wrapped-Ends (suc left) p sum lt inside seen =
      round-Ends left p (p + 1) (next_inside p (length nodes) (omega arith) small) (omega arith)
        (λ here met. Refused-all request nodes (λ i in_nodes. elim (dec_lt start i) [
          | yes behind ↦ seen i in_nodes (inl behind)
          | no front ↦ elim (ℕ_discrete i (p + 1)) [
            | yes last ↦ rw last here
            | no before ↦ seen i in_nodes (inr (omega arith))
          ]
        ]))
        (λ here other. wrapped-Ends left (p + 1) (omega arith) (omega arith) inside (λ i in_nodes h.
          elim (ℕ_discrete i (p + 1)) [
            | yes last ↦ rw last here
            | no before ↦
                seen i in_nodes (elim h [ inl behind ↦ inl behind | inr le ↦ inr (omega arith) ])
          ]))

  -- From the first half: everything behind `start` and up to `p` is refused.
  rising-Ends :
      (left p : ℕ)
      → left + p ≡ length nodes + start
      → start ≤ p
      → p < length nodes
      → ((i : ℕ) → start < i → i ≤ p → RefusedAt request nodes i)
      → Ends request nodes (round_robin_loop request nodes start left p)
  rising-Ends zero p sum le inside seen = absurd (omega arith)
  rising-Ends (suc left) p sum le inside seen = elim (ℕ_discrete (p + 1) (length nodes)) [
    | no more ↦
        round-Ends left p (p + 1) (next_inside p (length nodes) (omega arith) small) (omega arith)
          (λ here met. absurd (omega arith))
          (λ here other.
            rising-Ends left (p + 1) (omega arith) (omega arith) (omega arith) (λ i behind le.
              elim (ℕ_discrete i (p + 1)) [
                | yes last ↦ rw last here
                | no before ↦ seen i behind (omega arith)
              ]))
    | yes last ↦
        round-Ends left p 0 (next_wraps p (length nodes) last small) (omega arith)
          (λ here met. Refused-all request nodes (λ i in_nodes. elim (ℕ_discrete i 0) [
            | yes first ↦ rw first here
            | no other ↦ seen i (omega arith) (omega arith)
          ]))
          (λ here other.
            wrapped-Ends left 0 (omega arith) (omega arith) (omega arith) (λ i in_nodes h.
              elim (ℕ_discrete i 0) [
                | yes first ↦ rw first here
                | no later ↦
                    seen i (elim h [ inl behind ↦ behind | inr le ↦ absurd (omega arith) ])
                      (omega arith)
              ]))
  ]

-- With a cursor inside the nodes a call ends, with an answer and a cursor inside the nodes.
pub round_robin-Ends :
    (request : Resources) (nodes : List Node) (pos : ℕ)
    → length nodes < u64_mod
    → pos < length nodes
    → Ends request nodes (round_robin_place request nodes pos)
unfolding round_robin_place
round_robin-Ends request nodes pos small inside =
    rising-Ends request nodes pos small (length nodes) pos (omega arith) (omega arith) inside
      (λ i behind le. absurd (omega arith))
