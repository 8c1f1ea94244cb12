-- ===== src/Io/Options/Words.antt =====
-- The command line of src/atlas/io/options.cpp: options written out and read back.
use Prim.Native.String.{String}
use atlas_simulator.Prelude.{
  ℕ, ◌<◌, ◌≡◌, refl, ◌∙◌, ap, inl, inr, Bool, true, false, List, [], ◌∷◌, ◌++◌, Option, none, some,
  u32_mod, u64_mod,
}
use atlas_simulator.Doubles.{Doubles}
use atlas_simulator.Io.Options.{
  Options, FromChars, finished, run, parse_value, parse_loop, set_option, parse_args,
  default_options,
}
use atlas_simulator.Io.Options.Accepted.{IsAccepted, check_options-Checked}

-- Writers of the three types of values, which std::from_chars reads back.
pub record ToChars {W : Type 0} (from : FromChars W) : Type 0 where
  pub u64 : ℕ → String
  pub u32 : ℕ → String
  pub real : W → String
  pub u64_back : (n : ℕ) → n < u64_mod → parse_value from.u64 (u64 n) ≡ some n
  pub u32_back : (n : ℕ) → n < u32_mod → parse_value from.u32 (u32 n) ≡ some n
  pub real_back : (w : W) → parse_value from.real (real w) ≡ some w

abbrev pub trace_words : Option String → List String
trace_words none = []
trace_words (some path) = "--trace" ∷ path ∷ []

abbrev pub compare_words : Bool → List String
compare_words true = "--compare" ∷ []
compare_words false = []

-- The numbers fit the types of their fields.
pub record IsInRange {W : Type 0} (o : Options W) : Type 0 where
  pub seed : o.seed < u64_mod
  pub nodes : o.nodes < u32_mod
  pub jobs : o.jobs < u32_mod
  pub seeds : o.seeds < u32_mod

module _ {W : Type 0} (from : FromChars W) where
  module _ (to : ToChars from) where
    -- All options, written out.
    abbrev pub args_of : Options W → List String
    args_of o =
        "--seed"
        ∷ to.u64 o.seed
        ∷ "--nodes"
        ∷ to.u32 o.nodes
        ∷ "--jobs"
        ∷ to.u32 o.jobs
        ∷ "--rate"
        ∷ to.real o.arrival_rate
        ∷ "--scheduler"
        ∷ o.scheduler
        ∷ "--queue"
        ∷ o.queue
        ∷ "--padding"
        ∷ to.real o.estimate_padding
        ∷ "--seeds"
        ∷ to.u32 o.seeds
        ∷ (trace_words o.trace_path ++ compare_words o.compare)

    tail_words :
        (o : Options W) (path : Option String) (compare : Bool)
        → o.trace_path ≡ none
        → o.compare ≡ false
        → parse_loop from o (trace_words path ++ compare_words compare)
          ≡ finished (record o { trace_path = path; compare = compare })
    unfolding parse_loop set_option
    tail_words o none true e c = ap (λ p. finished (record o { trace_path = p; compare = true })) e
    tail_words o none false e c =
        ap (λ p. finished (record o { trace_path = p })) e
        ∙ ap (λ b. finished (record o { trace_path = none; compare = b })) c
    tail_words o (some path) true e c = refl
    tail_words o (some path) false e c =
        ap (λ b. finished (record o { trace_path = some path; compare = b })) c

    parse_loop-args_of :
        (d : Doubles W) (o : Options W)
        → IsInRange o
        → parse_loop from (default_options d) (args_of o) ≡ finished o
    unfolding parse_loop set_option
    parse_loop-args_of d o v = rw (to.u64_back o.seed v.seed) (
        rw (to.u32_back o.nodes v.nodes) (
          rw (to.u32_back o.jobs v.jobs) (
            rw (to.real_back o.arrival_rate) (
              rw (to.real_back o.estimate_padding) (
                rw (to.u32_back o.seeds v.seeds)
                  (tail_words _ o.trace_path o.compare refl refl))))))

    -- Any acceptable options whose numbers fit their types, written out as arguments with texts
    -- that std::from_chars reads back, are what `parse_args` says to run with.
    pub parse_args-args_of :
        (d : Doubles W) (o : Options W)
        → IsInRange o
        → IsAccepted d o
        → parse_args d from (args_of o) ≡ record { status = run; options = o }
    unfolding parse_args
    parse_args-args_of d o v a =
        rw (parse_loop-args_of d o v, parse_args)
          (elim (check_options-Checked d o) [ inl (good, e) ↦ e | inr (bad, e) ↦ absurd (bad a) ])
