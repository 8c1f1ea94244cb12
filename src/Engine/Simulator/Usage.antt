-- ===== src/Engine/Simulator/Usage.antt =====
-- What `total_utilized` of src/atlas/model/cluster.hpp comes to in a run: the requests of the jobs
-- that run.
use atlas_simulator.Prelude.{
  ℕ, ◌+◌, ◌<◌, ◌≡◌, refl, ap, sym, ◌∙◌, List, [], ◌∷◌, some, arith, All, sum_of, get_elem?,
  get_elem?-in, length,
}
use atlas_simulator.Model.Types.{Node, Job, JobState, queued, running as is_on_node, done}
use atlas_simulator.Model.Cluster.{total_utilized}
use atlas_simulator.Model.Cluster.Sums.{IsSummable, cores_held, memory_held, total_utilized_exact}
use atlas_simulator.Engine.Simulator.{Simulator}
use atlas_simulator.Engine.Simulator.Ledger.{count, on_node, cores_of, memory_of, Phase}
use atlas_simulator.Engine.Simulator.Start.{is_one}
use atlas_simulator.Engine.Simulator.Held.{
  Phase-count, val, span, look, look_at, look-sum, sum-span, held_by,
}
use atlas_simulator.Engine.Simulator.Invariant.{Inv}

Phase-running : (state : JobState) (a w o e : ℕ) → Phase state a w o e → 0 < o → state ≡ is_on_node
Phase-running queued a w o e p h = absurd (omega arith)
Phase-running is_on_node a w o e p h = refl
Phase-running done a w o e p h = absurd (omega arith)

module _ (s : Simulator) (pend : List ℕ) (v : Inv s pend) (f : Job → ℕ) (held : Node → ℕ)
    (books : (k : ℕ) (n : Node)
      → get_elem? s.cluster.nodes k ≡ some n
      → held n ≡ sum_of (on_node f k s.jobs) s.running) where
  inside :
      (id : ℕ) (j : Job)
      → get_elem? s.jobs id ≡ some j
      → 0 < count id s.running
      → span f 0 (length s.cluster.nodes) (some j) ≡ f j
  inside id j at listed =
      let runs = Phase-running j.state _ _ _ _ (v.counts.phases id j at) listed in
      ground (arith, v.nodes_inv.placed id j at runs)

  spans :
      (before on : List ℕ)
      → ((id : ℕ) → count id s.running ≡ count id before + count id on)
      → All (λ id. id < length s.jobs) on
      → sum_of (λ id. span f 0 (length s.cluster.nodes) (get_elem? s.jobs id)) on
        ≡ sum_of (look f s.jobs 0) on
  spans before [] h k = refl
  spans before (id ∷ on) h k =
      let (j, at) = get_elem?-in s.jobs id k.0 in
      let rest = spans (id ∷ before) on (λ x. omega (arith, h x)) k.1 in
      let first : id ≡ 0 + id = omega arith in
      let here : span f 0 (length s.cluster.nodes) (get_elem? s.jobs id) ≡ look f s.jobs 0 id =
        ap (span f 0 (length s.cluster.nodes)) at
        ∙ inside id j at (omega (arith, h id, is_one id))
        ∙ sym (ap (look f s.jobs 0) first ∙ look_at f s.jobs 0 id ∙ ap (val f) at) in
      omega (arith, rest, here)

  pub held-sum : sum_of held s.cluster.nodes ≡ sum_of (held_by f) s.jobs
  held-sum =
      sum-span f held s.jobs s.running 0 s.cluster.nodes (λ i n at.
        let first : i ≡ 0 + i = omega arith in
        books i n at ∙ ap (λ x. sum_of (on_node f x s.jobs) s.running) first)
      ∙ spans [] s.running (λ id. omega arith) v.counts.on_in
      ∙ look-sum f s.jobs 0 s.running (λ i j at.
        let first : 0 + i ≡ i = omega arith in
        ap (λ y. count y s.running) first
        ∙ Phase-count j j.state _ _ _ _ refl (v.counts.phases i j at))

-- In a run whose total capacity fits its types, what is not free is what the running jobs asked for.
pub total_utilized-held :
    (s : Simulator) (pend : List ℕ)
    → Inv s pend
    → IsSummable s.cluster
    → total_utilized s.cluster ≡ record {
      cores = sum_of (held_by cores_of) s.jobs;
      memory_mb = sum_of (held_by memory_of) s.jobs;
    }
total_utilized-held s pend v fits =
    let cores =
      held-sum s pend v cores_of cores_held
        (λ k n at. omega (arith, (v.nodes_inv.books k n at).cores)) in
    let memory =
      held-sum s pend v memory_of memory_held
        (λ k n at. omega (arith, (v.nodes_inv.books k n at).memory)) in
    total_utilized_exact s.cluster v.nodes_inv.nodes_ok fits ∙ rw (cores, memory) refl
