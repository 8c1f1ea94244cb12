-- ===== src/Engine/Simulator/Drain.antt =====
-- `drain` of src/atlas/engine/simulator.cpp, its two loops and the head that it may leave.
use atlas_simulator.Prelude.{
  ◌≢◌, ℕ, zero, suc, ◌+◌, ◌≤◌, ◌<◌, ◌≡◌, refl, ap, sym, subst, ◌∙◌, inl, inr, Bool, true, false,
  not, List, [], ◌∷◌, Option, some, arith, All, get_elem?, get_elem?-in, length, ◌>>=◌, ◌>>◌,
  assert, ◌==◌, Option-cases, add64,
}
use atlas_simulator.Model.Types.{Node, Job, queued}
use atlas_simulator.Sched.Place.Contract.{Refused}
use atlas_simulator.Sched.Queue.{fifo, pick}
use atlas_simulator.Engine.Simulator.{
  Simulator, try_place, place_heads, place_behind, backfill_round, erase, drain,
}
use atlas_simulator.Engine.Simulator.Ledger.{is, count}
use atlas_simulator.Engine.Simulator.Invariant.{
  Inv, Keeps, Keeps-refl, Keeps-trans, Phase-waiting, Inv-pending, Keeps-pending,
}
use atlas_simulator.Engine.Simulator.Placing.{Started, try_place_cases}
use atlas_simulator.Engine.Simulator.Views.{backlog_view_total, running_view_total, Erased}
use atlas_simulator.Engine.Simulator.Picks.{
  Picked, Refused-fits, erase_behind, pick-Picked, pick-policy,
}

-- No node can take the first of the waiting jobs, if there is one.
abbrev pub HeadBlocked : List Job → List Node → List ℕ → Type 0
HeadBlocked jobs nodes [] = Unit
HeadBlocked jobs nodes (id ∷ ids) =
    (j : Job) × (get_elem? jobs id ≡ some j) × Refused j.request nodes

-- What the placement of jobs comes to.
pub record Drained (s : Simulator) (r : Option Simulator) : Type 0 where
  pub next : Simulator
  pub result : r ≡ some next
  pub inv : Inv next next.pending
  pub keeps : Keeps s next
  pub blocked : HeadBlocked next.jobs next.cluster.nodes next.pending

-- A waiting job is queued.
waiting_job :
    (s : Simulator) (pend : List ℕ) (id : ℕ) (j : Job)
    → Inv s pend
    → get_elem? s.jobs id ≡ some j
    → 0 < count id pend
    → (j.state ≡ queued) × (count id pend ≡ 1)
waiting_job s pend id j v at h = Phase-waiting j.state _ _ _ _ (v.counts.phases id j at) h

Drained-after : (s t : Simulator) (r : Option Simulator) → Keeps s t → Drained t r → Drained s r
Drained-after s t r k d = record {
  next = d.next;
  result = d.result;
  inv = d.inv;
  keeps = Keeps-trans s t d.next k d.keeps;
  blocked = d.blocked;
}

head_count : (id : ℕ) (rest : List ℕ) → 0 < count id (id ∷ rest)
head_count id rest = ground arith

place_heads-Drained : (ids : List ℕ) (s : Simulator) → Inv s ids → Drained s (place_heads ids s)
unfolding place_heads
place_heads-Drained [] s v = record {
  next = record s { pending = [] };
  result = refl;
  inv = Inv-pending s [] [] s.backfilled v;
  keeps = Keeps-pending s s [] s.backfilled (Keeps-refl s) (λ e. refl);
  blocked = tt;
}
place_heads-Drained (id ∷ rest) s v =
    let (j, at) = get_elem?-in s.jobs id v.counts.pend_in.0 in
    let waits = (waiting_job s (id ∷ rest) id j v at (head_count id rest)).0 in
    elim (try_place_cases s (id ∷ rest) rest id j at waits (λ x. refl) v.counts.pend_in.1 v) [
      | inl t ↦
          rw (t.result, ◌>>=◌)
            (Drained-after s t.next _ t.keeps (place_heads-Drained rest t.next t.inv))
      | inr b ↦
          rw (b.result, ◌>>=◌)
            (let (i, there, same) = b.keeps.requests id j at in
              record {
                next = record b.next { pending = id ∷ rest };
                result = refl;
                inv = Inv-pending b.next (id ∷ rest) (id ∷ rest) b.next.backfilled b.inv;
                keeps = Keeps-pending s b.next (id ∷ rest) b.next.backfilled b.keeps (λ e. refl);
                blocked =
                    (i, there, subst (λ r. Refused r b.next.cluster.nodes) (sym same) b.refused);
              })
    ]

-- One round of the second loop: nothing is picked, or the picked job is placed.
data Round (s : Simulator) (r : Option (Bool × Simulator)) : Type 0 where
  rests : r ≡ some (false, s) → Round s r
  goes :
      (next : Simulator)
      → r ≡ some (true, next)
      → Inv next next.pending
      → Keeps s next
      → length s.pending ≡ suc (length next.pending)
      → 0 < length next.pending
      → HeadBlocked next.jobs next.cluster.nodes next.pending
      → Round s r

-- The head that was blocked is blocked behind any start.
HeadBlocked-Keeps :
    (s t : Simulator) (front : ℕ) (rest rest' : List ℕ)
    → Keeps s t
    → HeadBlocked s.jobs s.cluster.nodes (front ∷ rest)
    → HeadBlocked t.jobs t.cluster.nodes (front ∷ rest')
HeadBlocked-Keeps s t front rest rest' k (j, at, refused) =
    let (i, there, same) = k.requests front j at in
    (i, there, subst (λ r. Refused r t.cluster.nodes) (sym same) (k.tighter j.request refused))

fits_both : (b : Bool) → b ≡ false → b ≡ true → ⊥
fits_both b h k = cc

eq_sym : (a b : ℕ) → (a == b) ≡ false → (b == a) ≡ false
eq_sym a b h = ground arith

-- The placement of a picked job.
module _ (s : Simulator) (id : ℕ) (v : Inv s s.pending)
    (p : Picked s.jobs s.pending s.cluster.nodes id) (not_fifo : s.queue_policy ≢ fifo)
    (blocked : HeadBlocked s.jobs s.cluster.nodes s.pending) where
  -- What the round does with the id, once the policy has answered.
  abbrev place_picked : Option (Bool × Simulator)
  place_picked = do
    front ← get_elem? s.pending 0
    assert (not (id == front))
    (placed, s') ← try_place s id
    assert placed
    pending ← erase id s'.pending
    some (true, record s' { pending = pending; backfilled = add64 s'.backfilled 1 })

  picked_count : count id s.pending ≡ is id p.front + count id p.rest
  picked_count = ap (count id) p.split

  not_front : (id == p.front) ≡ false
  not_front =
      let once =
        (waiting_job s s.pending id p.job v p.at (omega (arith, picked_count, p.behind))).1 in
      ground (arith, once, picked_count, p.behind)

  picked-Started :
      (rest' : List ℕ) → Erased id p.rest rest' → Started s (p.front ∷ rest') (try_place s id)
  picked-Started rest' r =
      let (waits, once) =
        waiting_job s s.pending id p.job v p.at (omega (arith, picked_count, p.behind)) in
      let all = subst (All (λ x. x < length s.jobs)) p.split v.counts.pend_in in
      let less : (x : ℕ) → count x s.pending ≡ is x id + count x (p.front ∷ rest') =
        λ x. omega (arith, ap (count x) p.split, r.sums (is x)) in
      elim (try_place_cases s s.pending (p.front ∷ rest') id p.job p.at waits less
        (all.0, r.inside (λ x. x < length s.jobs) all.1) v) [
          | inl t ↦ t
          | inr b ↦
              let tight = Refused-fits p.job.request s.cluster.nodes b.refused_before in
              absurd (fits_both _ tight p.fits)
        ]

  place_picked-Round : Round s place_picked
  place_picked-Round =
      let (rest', e, r) = erase_behind id p.front p.rest (eq_sym _ _ not_front) p.behind in
      let t = picked-Started rest' r in
      let next : Simulator = record t.next {
        pending = p.front ∷ rest';
        backfilled = add64 t.next.backfilled 1;
      } in
      let kept =
        Keeps-pending s t.next (p.front ∷ rest') (add64 t.next.backfilled 1) t.keeps
          (λ e. absurd (not_fifo e)) in
      let read : get_elem? s.pending 0 ≡ some p.front = ap (λ l. get_elem? l 0) p.split in
      let erased : erase id t.next.pending ≡ some (p.front ∷ rest') =
        ap (erase id) (t.pending ∙ p.split) ∙ e in
      goes next (rw (read, ◌>>=◌) (rw not_front (rw (t.result, ◌>>=◌) (rw (erased, ◌>>=◌) refl))))
        (Inv-pending t.next (p.front ∷ rest') (p.front ∷ rest') (add64 t.next.backfilled 1) t.inv)
        kept (ap length p.split ∙ ap suc r.shorter) (omega arith)
        (HeadBlocked-Keeps s next p.front p.rest rest' kept
          (subst (HeadBlocked s.jobs s.cluster.nodes) p.split blocked))

backfill_round-Round :
    (s : Simulator)
    → Inv s s.pending
    → HeadBlocked s.jobs s.cluster.nodes s.pending
    → Round s (backfill_round s)
unfolding backfill_round
backfill_round-Round s v blocked =
    let (js, shown, shows) = backlog_view_total s.jobs s.pending v.counts.pend_in in
    let (rs, seen) = running_view_total s.jobs s.running v.counts.on_in in
    rw (shown, ◌>>=◌)
      (rw (seen, ◌>>=◌)
        (elim (Option-cases (pick s.queue_policy js s.cluster.nodes rs s.now)) [
          | inl nothing ↦ rw nothing (rests refl)
          | inr (id, picked) ↦ rw picked (
              place_picked-Round s id v
                (pick-Picked s.queue_policy s.jobs s.pending js s.cluster.nodes rs s.now id
                  v.jobs_inv shows picked)
                (pick-policy s.queue_policy js s.cluster.nodes rs s.now id picked) blocked)
        ]))

place_behind-Drained :
    (left : ℕ) (s : Simulator)
    → 0 < left
    → length s.pending ≤ left
    → Inv s s.pending
    → HeadBlocked s.jobs s.cluster.nodes s.pending
    → Drained s (place_behind left s)
unfolding place_behind
place_behind-Drained zero s some_left enough v blocked = absurd (omega arith)
place_behind-Drained (suc left) s some_left enough v blocked =
    elim (backfill_round-Round s v blocked) [
      | rests e ↦
          rw (e, ◌>>=◌)
            (record { next = s; result = refl; inv = v; keeps = Keeps-refl s; blocked = blocked })
      | goes next e v' k shorter more blocked' ↦
          rw (e, ◌>>=◌)
            (Drained-after s next _ k
              (place_behind-Drained left next (omega arith) (omega arith) v' blocked'))
    ]

-- From a state that satisfies the invariant `drain` comes back with no assertion failed, and the
-- state that it leaves satisfies the invariant. The job at the head of the waiting ones, if there
-- is one, fits on no node. The clock, the utilization integral and the queue policy are the same,
-- as many jobs are not done and as many arrivals are to come, the jobs and the nodes are the same
-- up to what the simulator writes, and a request that no node could take still fits on none.
pub drain-Drained : (s : Simulator) → Inv s s.pending → Drained s (drain s)
unfolding drain
drain-Drained s v =
    let d = place_heads-Drained s.pending s v in
    rw (d.result, ◌>>=◌) (second s d.next d.keeps d.next.pending refl d.inv d.blocked)
  where
    second :
        (s t : Simulator)
        → Keeps s t
        → (pending : List ℕ) → t.pending ≡ pending
        → Inv t t.pending
        → HeadBlocked t.jobs t.cluster.nodes t.pending
        → Drained s (elim t.pending [ [] ↦ some t | id ∷ ids ↦ place_behind (length t.pending) t ])
    second s t k [] e v' blocked =
        rw e (record { next = t; result = refl; inv = v'; keeps = k; blocked = blocked })
    second s t k (id ∷ ids) e v' blocked = rw e (
        Drained-after s t _ k (
          place_behind-Drained (length t.pending) t (omega (arith, ap length e)) (omega arith) v'
            blocked))
