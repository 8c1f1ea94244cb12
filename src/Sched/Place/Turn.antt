-- ===== src/Sched/Place/Turn.antt =====
-- The order in which src/atlas/sched/round_robin.cpp goes through the nodes.
use atlas_simulator.Prelude.{
  ℕ, zero, suc, ◌+◌, ◌≤◌, ◌<◌, ◌%◌, ◌≡◌, refl, ap, sym, ◌∙◌, ◌≢◌, inl, inr, List, [], ◌∷◌, ◌++◌,
  Option, some, none, arith, get_elem?, get_elem?-in, length, take, drop, drop_all, Bool-cases,
  add64, ◌==◌, u64_mod, ==_iff,
}
use native.Mathlib.Decide.{ℕ_discrete}
use atlas_simulator.Model.Types.{Resources, Node, can_fit}
use atlas_simulator.Sched.Place.{first_fit_place, round_robin_loop, round_robin_place}
use atlas_simulator.Sched.Place.Cursor.{next_inside, next_wraps}

drop_zero {ℓ} : {A : Type ℓ} (xs : List A) → drop 0 xs ≡ xs
drop_zero [] = refl
drop_zero (x ∷ xs) = refl

drop-next {ℓ} :
    {A : Type ℓ} (i : ℕ) (xs : List A) (a : A)
    → get_elem? xs i ≡ some a
    → drop i xs ≡ a ∷ drop (suc i) xs
drop-next i [] a at = cc
drop-next zero (x ∷ xs) a at =
    let same : x ≡ a = cc in ap (λ y. y ∷ xs) same ∙ ap (◌∷◌ a) (sym (drop_zero xs))
drop-next (suc i) (x ∷ xs) a at = drop-next i xs a at

take-get {ℓ} :
    {A : Type ℓ} (i n : ℕ) (xs : List A) → i < n → get_elem? (take n xs) i ≡ get_elem? xs i
take-get i n [] lt = refl
take-get i zero (x ∷ xs) lt = absurd (omega arith)
take-get zero (suc n) (x ∷ xs) lt = refl
take-get (suc i) (suc n) (x ∷ xs) lt = take-get i n xs (omega arith)

length-take_le {ℓ} : {A : Type ℓ} (n : ℕ) (xs : List A) → length (take n xs) ≤ n
length-take_le n [] = omega arith
length-take_le zero (x ∷ xs) = omega arith
length-take_le (suc n) (x ∷ xs) = omega (arith, length-take_le n xs)

-- The loop answers as first fit does on the nodes that it has before it.
pub record IsTurn (request : Resources) (ahead : List Node) (r : Option (Option ℕ × ℕ))
    : Type 0 where
  pub cursor : ℕ
  pub result : r ≡ some (first_fit_place request ahead, cursor)

module _ (request : Resources) (nodes : List Node) (start : ℕ)
    (small : length nodes < u64_mod) where
  -- One round at the index `q`, where `m` stands.
  round-IsTurn :
      (left p q : ℕ) (m : Node) (ahead : List Node)
      → add64 p 1 % length nodes ≡ q
      → get_elem? nodes q ≡ some m
      → (q ≡ start → ahead ≡ [])
      → (q ≢ start → IsTurn request ahead (round_robin_loop request nodes start left q))
      → IsTurn request (m ∷ ahead) (round_robin_loop request nodes start (suc left) p)
  unfolding round_robin_loop first_fit_place
  round-IsTurn left p q m ahead step at stop go =
      rw (step, round_robin_loop)
        (rw (at, round_robin_loop)
          (rw step (elim (Bool-cases (can_fit m request)) [
            | inl fit ↦
                let first : first_fit_place request (m ∷ ahead) ≡ some m.id = rw fit refl in
                rw fit (record { cursor = q; result = ap (λ a. some (a, q)) (sym first) })
            | inr tight ↦
                let first : first_fit_place request (m ∷ ahead) ≡ first_fit_place request ahead =
                  rw tight refl in
                elim (Bool-cases (q == start)) [
                  | inl met ↦
                      let over : first_fit_place request ahead ≡ none =
                        ap (first_fit_place request) (stop ((==_iff q start).0 met)) in
                      rw (tight, met)
                        (record { cursor = q; result = ap (λ a. some (a, q)) (sym (first ∙ over)) })
                  | inr other ↦
                      let turn = go (λ e. cc ((==_iff q start).1 e)) in
                      rw (tight, other)
                        (record {
                          cursor = turn.cursor;
                          result = turn.result ∙ ap (λ a. some (a, turn.cursor)) (sym first);
                        })
                ]
          ])))

  step_inside : (p : ℕ) → suc p < length nodes → add64 p 1 % length nodes ≡ suc p
  step_inside p lt = omega (arith, next_inside p (length nodes) (omega arith) small)

  abbrev front : List Node
  front = take (suc start) nodes

  wrapped-IsTurn :
      (left p : ℕ)
      → p + left ≡ start
      → p < start
      → start < length nodes
      → IsTurn request (drop (suc p) front) (round_robin_loop request nodes start left p)
  wrapped-IsTurn zero p sum lt inside = absurd (omega arith)
  wrapped-IsTurn (suc left) p sum lt inside =
      let (m, at) = get_elem?-in nodes (suc p) (omega arith) in
      rw (drop-next (suc p) front m (take-get (suc p) (suc start) nodes (omega arith) ∙ at)) (
        round-IsTurn left p (suc p) m (drop (suc (suc p)) front) (step_inside p (omega arith)) at
          (λ met. drop_all (suc (suc p)) front (omega (arith, length-take_le (suc start) nodes)))
          (λ other. wrapped-IsTurn left (suc p) (omega arith) (omega arith) inside))

  rising-IsTurn :
      (left p : ℕ)
      → left + p ≡ length nodes + start
      → start ≤ p
      → p < length nodes
      → IsTurn request (drop (suc p) nodes ++ front) (round_robin_loop request nodes start left p)
  rising-IsTurn zero p sum le inside = absurd (omega arith)
  rising-IsTurn (suc left) p sum le inside = elim (ℕ_discrete (p + 1) (length nodes)) [
    | no more ↦
        let (m, at) = get_elem?-in nodes (suc p) (omega arith) in
        rw (drop-next (suc p) nodes m at) (
          round-IsTurn left p (suc p) m (drop (suc (suc p)) nodes ++ front)
            (step_inside p (omega arith)) at (λ met. absurd (omega arith))
            (λ other. rising-IsTurn left (suc p) (omega arith) (omega arith) (omega arith)))
    | yes last ↦
        let (m, at) = get_elem?-in nodes 0 (omega arith) in
        let first : front ≡ m ∷ drop 1 front =
          sym (drop_zero front)
          ∙ drop-next 0 front m (take-get 0 (suc start) nodes (omega arith) ∙ at) in
        rw (drop_all (suc p) nodes (omega arith), first)
          (round-IsTurn left p 0 m (drop 1 front) (next_wraps p (length nodes) last small) at
            (λ met. drop_all 1 front (omega (arith, length-take_le (suc start) nodes)))
            (λ other. wrapped-IsTurn left 0 (omega arith) (omega arith) (omega arith)))
  ]

-- On fewer than 2^64 nodes, with a cursor inside them: RoundRobinScheduler::place reads no node out
-- of bounds and answers as FirstFitScheduler::place does on the nodes from behind the cursor on,
-- followed by those from the first to the one at the cursor.
pub round_robin-IsTurn :
    (request : Resources) (nodes : List Node) (pos : ℕ)
    → length nodes < u64_mod
    → pos < length nodes
    → IsTurn request
        (drop (suc pos) nodes ++ take (suc pos) nodes)
        (round_robin_place request nodes pos)
unfolding round_robin_place
round_robin-IsTurn request nodes pos small inside =
    rising-IsTurn request nodes pos small (length nodes) pos (omega arith) (omega arith) inside
