-- ===== src/Engine/Simulator/Held.antt =====
-- What the jobs that are listed as running hold, as sums over the list and over all jobs.
use atlas_simulator.Prelude.{
  ℕ, zero, suc, ◌+◌, ◌*◌, ◌<◌, ◌≡◌, refl, ap, sym, ◌∙◌, List, [], ◌∷◌, Option, none, some, arith,
  sum_of, get_elem?, length, ltb, leb, ◌&&◌, if◌then◌else◌,
}
use atlas_simulator.Model.Types.{Node, Job, JobState, queued, running as is_on_node, done}
use atlas_simulator.Engine.Simulator.Ledger.{Phase, is, count, part, on_node, running_one}

sum_of-add {ℓ} :
    {A : Type ℓ} (f g h : A → ℕ) (xs : List A)
    → ((x : A) → f x + g x ≡ h x)
    → sum_of f xs + sum_of g xs ≡ sum_of h xs
sum_of-add f g h [] e = refl
sum_of-add f g h (x ∷ xs) e = omega (arith, e x, sum_of-add f g h xs e)

module _ (f : Job → ℕ) where
  -- What a job holds, if there is one, and if its node is one of `len` from `k` on.
  abbrev pub val : Option Job → ℕ
  val none = 0
  val (some j) = f j

  abbrev pub span : ℕ → ℕ → Option Job → ℕ
  span k len none = 0
  span k len (some j) = if leb k j.node && ltb j.node (k + len) then f j else 0

  span-step : (k len : ℕ) (o : Option Job) → part f k o + span (suc k) len o ≡ span k (suc len) o
  span-step k len none = refl
  span-step k len (some j) = ground arith

  span_none : (k : ℕ) (o : Option Job) → span k 0 o ≡ 0
  span_none k none = refl
  span_none k (some j) = ground arith

  span_zeros :
      (k : ℕ) (jobs : List Job) (on : List ℕ) → sum_of (λ id. span k 0 (get_elem? jobs id)) on ≡ 0
  span_zeros k jobs [] = refl
  span_zeros k jobs (id ∷ on) = omega (arith, span_none k (get_elem? jobs id), span_zeros k jobs on)

  -- The sum over the nodes of what their jobs hold, job by job.
  pub sum-span :
      (held : Node → ℕ) (jobs : List Job) (on : List ℕ) (k : ℕ) (ns : List Node)
      → ((i : ℕ) (n : Node) → get_elem? ns i ≡ some n → held n ≡ sum_of (on_node f (k + i) jobs) on)
      → sum_of held ns ≡ sum_of (λ id. span k (length ns) (get_elem? jobs id)) on
  sum-span held jobs on k [] h = sym (span_zeros k jobs on)
  sum-span held jobs on k (n ∷ ns) h =
      let rest = sum-span held jobs on (suc k) ns (λ i m at.
        let shift : k + suc i ≡ suc k + i = omega arith in
        h (suc i) m at ∙ ap (λ x. sum_of (on_node f x jobs) on) shift) in
      let first : k + 0 ≡ k = omega arith in
      let here = h 0 n refl ∙ ap (λ x. sum_of (on_node f x jobs) on) first in
      omega (
        arith,
        rest,
        here,
        sum_of-add (on_node f k jobs) (λ id. span (suc k) (length ns) (get_elem? jobs id))
            (λ id. span k (suc (length ns)) (get_elem? jobs id)) on
            (λ id. span-step k (length ns) (get_elem? jobs id)),
      )

  -- What the job with an id holds in a list that is numbered from `k` on.
  pub look : List Job → ℕ → ℕ → ℕ
  look [] k id = 0
  look (j ∷ js) k id = is k id * f j + look js (suc k) id

  look_below : (js : List Job) (k id : ℕ) → id < k → look js k id ≡ 0
  unfolding look
  look_below [] k id h = refl
  look_below (j ∷ js) k id h =
      let none_here : is k id ≡ 0 = ground arith in
      omega (arith, ap (λ x. x * f j) none_here, look_below js (suc k) id (omega arith))

  pub look_at : (js : List Job) (k i : ℕ) → look js k (k + i) ≡ val (get_elem? js i)
  unfolding look
  look_at [] k i = refl
  look_at (j ∷ js) k zero =
      let here : is k (k + 0) ≡ 1 = ground arith in
      omega (arith, ap (λ x. x * f j) here, look_below js (suc k) (k + 0) (omega arith))
  look_at (j ∷ js) k (suc i) =
      let none_here : is k (k + suc i) ≡ 0 = ground arith in
      let shift : suc k + i ≡ k + suc i = omega arith in
      omega (arith, ap (λ x. x * f j) none_here, ap (look js (suc k)) shift, look_at js (suc k) i)

  -- What the running jobs hold.
  abbrev pub held_by : Job → ℕ
  held_by j = running_one j * f j

  scaled : (k c : ℕ) (on : List ℕ) → sum_of (λ id. is k id * c) on ≡ count k on * c
  scaled k c [] = omega arith
  scaled k c (id ∷ on) = grind (arith, scaled k c on)

  pub look-sum :
      (js : List Job) (k : ℕ) (on : List ℕ)
      → ((i : ℕ) (j : Job) → get_elem? js i ≡ some j → count (k + i) on ≡ running_one j)
      → sum_of (look js k) on ≡ sum_of held_by js
  unfolding look
  look-sum [] k on h = sum_zeros on
    where
      sum_zeros : (on : List ℕ) → sum_of (λ id. 0) on ≡ 0
      sum_zeros [] = refl
      sum_zeros (id ∷ on) = omega (arith, sum_zeros on)
  look-sum (j ∷ js) k on h =
      let rest = look-sum js (suc k) on (λ i x at.
        let shift : suc k + i ≡ k + suc i = omega arith in
        ap (λ y. count y on) shift ∙ h (suc i) x at) in
      let first : k ≡ k + 0 = omega arith in
      let here : count k on ≡ running_one j = ap (λ y. count y on) first ∙ h 0 j refl in
      omega (
        arith,
        rest,
        scaled k (f j) on,
        ap (λ x. x * f j) here,
        sum_of-add (λ id. is k id * f j) (look js (suc k)) (look (j ∷ js) k) on (λ id. refl),
      )

pub Phase-count :
    (j : Job) (state : JobState) (a w o e : ℕ)
    → j.state ≡ state
    → Phase state a w o e
    → o ≡ running_one j
Phase-count j queued a w o e same p = rw same (omega arith)
Phase-count j is_on_node a w o e same p = rw same (omega arith)
Phase-count j done a w o e same p = rw same (omega arith)
