-- ===== src/Io/Compare/Grid.antt =====
-- The table that `compare_schedulers` of src/atlas/io/compare.cpp fills, cell by cell.
use atlas_simulator.Prelude.{
  ℕ, zero, suc, ◌+◌, ◌≤◌, ◌<◌, ◌≡◌, refl, sym, subst, ◌∙◌, ◌≢◌, ◌⊎◌, inl, inr, List, Option, some,
  arith, ◌>>=◌, get_elem?, get_elem?-in, get_elem?-lt, get_elem?-set_self, get_elem?-set_ne, set,
  length, length-set, length-replicate, add64,
}
use native.Mathlib.Decide.{ℕ_discrete}
use atlas_simulator.Doubles.{Doubles, Engine}
use atlas_simulator.Metrics.Percentiles.{NthElement}
use atlas_simulator.Metrics.Load.{LoadFactor, offered_load}
use atlas_simulator.Engine.Simulator.{Simulator}
use atlas_simulator.Io.Options.{Options}
use atlas_simulator.Io.Compare.{
  RunResult, Comparison, cell_at, configs, run_config, offer, config_loop, seed_loop, empty_table,
  compare_schedulers,
}
use atlas_simulator.Io.Compare.Wins.{IsTable}
use atlas_simulator.Io.Compare.Cells.{IsShape, replicate-IsShape, set_cell-Written}

module _ {W E : Type 0} (d : Doubles W) (g : Engine E) (nth : NthElement) (opts : Options W)
    (seed_count : ℕ) (cells : ℕ → ℕ → RunResult W) (sims : ℕ → ℕ → Simulator)
    (loads : ℕ → LoadFactor W) where
  -- Every run of the sweep comes to an end, and so does the load offered on each seed.
  pub record HasRuns : Type 0 where
    pub runs :
        (i k : ℕ)
        → i < configs
        → k < seed_count
        → run_config d g nth opts (add64 opts.seed k) i ≡ some (cells i k, sims i k)
    pub offers :
        (k : ℕ)
        → k < seed_count
        → offered_load d (sims 0 k).jobs (sims 0 k).cluster ≡ some (loads k)

  -- A table behind the cells of column `k` from row `i` on.
  record Column (i k : ℕ) (res : Comparison W) (r : Option (Comparison W)) : Type 0 where
    next : Comparison W
    result : r ≡ some next
    labels : next.labels ≡ res.labels
    base_seed : next.base_seed ≡ res.base_seed
    seeds : next.seeds ≡ res.seeds
    shape : IsShape next.rows configs seed_count
    offered : length next.offered_rho ≡ seed_count
    here : (x : ℕ) → i ≤ x → x < configs → cell_at next.rows x k ≡ some (cells x k)
    kept : (x y : ℕ) → (y ≢ k) ⊎ (x < i) → cell_at next.rows x y ≡ cell_at res.rows x y
    load_here : i ≡ 0 → get_elem? next.offered_rho k ≡ some (loads k)
    load_kept :
        (y : ℕ) → (y ≢ k) ⊎ (0 < i) → get_elem? next.offered_rho y ≡ get_elem? res.offered_rho y

  module _ (h : HasRuns) where
    -- What the first row writes above the table.
    record Offered (i k : ℕ) (rho : List (LoadFactor W)) (r : Option (List (LoadFactor W)))
        : Type 0 where
      next : List (LoadFactor W)
      result : r ≡ some next
      long : length next ≡ length rho
      here : i ≡ 0 → get_elem? next k ≡ some (loads k)
      kept : (y : ℕ) → (y ≢ k) ⊎ (0 < i) → get_elem? next y ≡ get_elem? rho y

    offer-Offered :
        (i k : ℕ) (rho : List (LoadFactor W))
        → k < seed_count
        → length rho ≡ seed_count
        → Offered i k rho (offer d g nth i k (sims i k) rho)
    unfolding offer
    offer-Offered zero k rho lt long =
        let (old, at) = get_elem?-in rho k (omega arith) in
        rw (h.offers k lt, ◌>>=◌)
          (rw (at, ◌>>=◌)
            (record {
              next = set rho k (loads k);
              result = refl;
              long = length-set rho k (loads k);
              here = λ e. get_elem?-set_self rho k (loads k) (get_elem?-lt rho k at);
              kept = λ y differ. elim differ [
                | inl other ↦ get_elem?-set_ne rho k y (loads k) (λ e. other (sym e))
                | inr none_below ↦ absurd (omega arith)
              ];
            }))
    offer-Offered (suc i) k rho lt long = record {
      next = rho;
      result = refl;
      long = refl;
      here = λ e. absurd (omega arith);
      kept = λ y differ. refl;
    }

    config_loop-Column :
        (left i k : ℕ) (res : Comparison W)
        → left + i ≡ configs
        → k < seed_count
        → IsShape res.rows configs seed_count
        → length res.offered_rho ≡ seed_count
        → Column i k res (config_loop d g nth opts k left i res)
    unfolding config_loop
    config_loop-Column zero i k res total lt shape long = record {
      next = res;
      result = refl;
      labels = refl;
      base_seed = refl;
      seeds = refl;
      shape = shape;
      offered = long;
      here = λ x le below. absurd (omega arith);
      kept = λ x y differ. refl;
      load_here = λ e. absurd (omega arith);
      load_kept = λ y differ. refl;
    }
    config_loop-Column (suc left) i k res total lt shape long =
        let w =
          set_cell-Written res.rows configs seed_count i k (cells i k) shape (omega arith) lt in
        let o = offer-Offered i k res.offered_rho lt long in
        let rest =
          config_loop-Column left (suc i) k (record res { rows = w.next; offered_rho = o.next })
            (omega arith) lt w.shape (o.long ∙ long) in
        rw (h.runs i k (omega arith) lt, ◌>>=◌)
          (rw (w.result, ◌>>=◌)
            (rw (o.result, ◌>>=◌)
              (record {
                next = rest.next;
                result = rest.result;
                labels = rest.labels;
                base_seed = rest.base_seed;
                seeds = rest.seeds;
                shape = rest.shape;
                offered = rest.offered;
                here = λ x le below. elim (ℕ_discrete i x) [
                  | yes e ↦
                      rest.kept x k (inr (omega arith))
                      ∙ subst (λ y. cell_at w.next y k ≡ some (cells y k)) e w.here
                  | no other ↦ rest.here x (omega arith) below
                ];
                kept = λ x y differ.
                    rest.kept x y
                      (elim differ [ inl other ↦ inl other | inr less ↦ inr (omega arith) ])
                    ∙ w.kept x y (elim differ [
                      | inl other ↦ inl other
                      | inr less ↦ inr (λ e. absurd (omega arith))
                    ]);
                load_here = λ e. rest.load_kept k (inr (omega arith)) ∙ o.here e;
                load_kept = λ y differ. rest.load_kept y (inr (omega arith)) ∙ o.kept y differ;
              })))

    -- A table behind the columns from `k` on.
    record Columns (k : ℕ) (res : Comparison W) (r : Option (Comparison W)) : Type 0 where
      next : Comparison W
      result : r ≡ some next
      labels : next.labels ≡ res.labels
      base_seed : next.base_seed ≡ res.base_seed
      seeds : next.seeds ≡ res.seeds
      shape : IsShape next.rows configs seed_count
      offered : length next.offered_rho ≡ seed_count
      here :
          (x y : ℕ)
          → x < configs
          → k ≤ y
          → y < seed_count
          → cell_at next.rows x y ≡ some (cells x y)
      kept : (x y : ℕ) → y < k → cell_at next.rows x y ≡ cell_at res.rows x y
      load_here : (y : ℕ) → k ≤ y → y < seed_count → get_elem? next.offered_rho y ≡ some (loads y)
      load_kept : (y : ℕ) → y < k → get_elem? next.offered_rho y ≡ get_elem? res.offered_rho y

    seed_loop-Columns :
        (left k : ℕ) (res : Comparison W)
        → left + k ≡ seed_count
        → IsShape res.rows configs seed_count
        → length res.offered_rho ≡ seed_count
        → Columns k res (seed_loop d g nth opts left k res)
    unfolding seed_loop
    seed_loop-Columns zero k res total shape long = record {
      next = res;
      result = refl;
      labels = refl;
      base_seed = refl;
      seeds = refl;
      shape = shape;
      offered = long;
      here = λ x y below le lt. absurd (omega arith);
      kept = λ x y lt. refl;
      load_here = λ y le lt. absurd (omega arith);
      load_kept = λ y lt. refl;
    }
    seed_loop-Columns (suc left) k res total shape long =
        let c = config_loop-Column configs 0 k res (omega arith) (omega arith) shape long in
        let rest = seed_loop-Columns left (suc k) c.next (omega arith) c.shape c.offered in
        rw (c.result, ◌>>=◌)
          (record {
            next = rest.next;
            result = rest.result;
            labels = rest.labels ∙ c.labels;
            base_seed = rest.base_seed ∙ c.base_seed;
            seeds = rest.seeds ∙ c.seeds;
            shape = rest.shape;
            offered = rest.offered;
            here = λ x y below le lt. elim (ℕ_discrete k y) [
              | yes e ↦
                  rest.kept x y (omega arith)
                  ∙ subst (λ z. cell_at c.next.rows x z ≡ some (cells x z)) e
                      (c.here x (omega arith) below)
              | no other ↦ rest.here x y below (omega arith) lt
            ];
            kept = λ x y lt.
                rest.kept x y (omega arith) ∙ c.kept x y (inl (λ e. absurd (omega arith)));
            load_here = λ y le lt. elim (ℕ_discrete k y) [
              | yes e ↦
                  rest.load_kept y (omega arith)
                  ∙ subst (λ z. get_elem? c.next.offered_rho z ≡ some (loads z)) e
                      (c.load_here refl)
              | no other ↦ rest.load_here y (omega arith) lt
            ];
            load_kept = λ y lt.
                rest.load_kept y (omega arith) ∙ c.load_kept y (inl (λ e. absurd (omega arith)));
          })

  -- The finished table.
  pub record IsSweep (r : Option (Comparison W)) : Type 0 where
    pub table : Comparison W
    pub result : r ≡ some table
    pub labels : table.labels ≡ (empty_table d g nth opts seed_count).labels
    pub base_seed : table.base_seed ≡ opts.seed
    pub seeds : table.seeds ≡ seed_count
    pub shape : IsShape table.rows configs seed_count
    pub filled : IsTable table.rows configs seed_count cells
    pub offered : length table.offered_rho ≡ seed_count
    pub loads_filled : (k : ℕ) → k < seed_count → get_elem? table.offered_rho k ≡ some (loads k)

  empty-IsShape : IsShape (empty_table d g nth opts seed_count).rows configs seed_count
  unfolding empty_table
  empty-IsShape = replicate-IsShape configs seed_count _

  -- If the run of every configuration on every seed comes to an end, and so does the offered load
  -- of each seed, then `compare_schedulers` comes to an end with no index out of bounds. Its table
  -- has a row for each pair of a queue policy and a scheduler and a column for each seed. The cell
  -- of a row and a column is the result of that configuration on the base seed plus the column,
  -- whatever the other runs were, and the offered load of a column is that of its first row.
  pub compare_schedulers-IsSweep : HasRuns → IsSweep (compare_schedulers d g nth opts seed_count)
  unfolding compare_schedulers empty_table
  compare_schedulers-IsSweep h =
      let c =
        seed_loop-Columns h seed_count 0 (empty_table d g nth opts seed_count) (omega arith)
          empty-IsShape (length-replicate seed_count _) in
      record {
        table = c.next;
        result = c.result;
        labels = c.labels;
        base_seed = c.base_seed;
        seeds = c.seeds;
        shape = c.shape;
        filled = record {
          height = c.shape.height;
          filled = λ i k lt lt'. c.here i k lt (omega arith) lt';
        };
        offered = c.offered;
        loads_filled = λ k lt. c.load_here k (omega arith) lt;
      }
