-- ===== src/Io/Options/Stops.antt =====
-- The words at which the parser of src/atlas/io/options.cpp stops.
use Prim.Native.String.{String, len}
use text.Mathlib.Text.{◌==◌ as ◌same◌}
use text.Mathlib.TextEquality.{eq_iff}
use atlas_simulator.Prelude.{
  ℕ, ◌≡◌, refl, sym, ◌∙◌, ap, ◌≢◌, ◌⊎◌, inl, inr, true, false, List, [], ◌∷◌, ◌++◌, Option, none,
  some, arith, All, Bool-cases, Option-cases,
}
use atlas_simulator.Doubles.{Doubles}
use atlas_simulator.Io.Options.{
  Options, Status, FromChars, finished, stopped, help_requested, error, parse_value, is_help,
  is_compare, parse_loop, set_option, parse_args, default_options, reject,
}

abbrev pub value_flags : List String
value_flags =
    "--seed" ∷ "--nodes" ∷ "--jobs" ∷ "--rate" ∷ "--scheduler" ∷ "--queue" ∷ "--padding" ∷ "--seeds"
    ∷ "--trace" ∷ []

-- None of the flags that take no value.
abbrev pub TakesValue : String → Type 0
TakesValue flag = (flag ≢ "--help") × (flag ≢ "-h") × (flag ≢ "--compare")

-- std::from_chars reads no value, or stops before the end of the text.
abbrev pub NotRead : {T : Type 0} → (String → Option (T × ℕ)) → String → Type 0
NotRead {T} from_chars text =
    (from_chars text ≡ none)
    ⊎ ((v : T) × (n : ℕ) × (from_chars text ≡ some (v, n)) × (n ≢ len text))

-- The words at which the parser stops, and with what status.
pub data Stopping {W : Type 0} (from : FromChars W) (words : List String) (status : Status)
    : Type 0 where
  help :
      (flag : String) (rest : List String)
      → (flag ≡ "--help") ⊎ (flag ≡ "-h")
      → words ≡ flag ∷ rest
      → status ≡ help_requested
      → Stopping from words status
  missing :
      (flag : String)
      → TakesValue flag
      → words ≡ flag ∷ []
      → status ≡ error
      → Stopping from words status
  unknown :
      (flag value : String) (rest : List String)
      → TakesValue flag
      → All (λ k. flag ≢ k) value_flags
      → words ≡ flag ∷ value ∷ rest
      → status ≡ error
      → Stopping from words status
  bad_seed :
      (value : String) (rest : List String)
      → NotRead from.u64 value
      → words ≡ "--seed" ∷ value ∷ rest
      → status ≡ error
      → Stopping from words status
  bad_nodes :
      (value : String) (rest : List String)
      → NotRead from.u32 value
      → words ≡ "--nodes" ∷ value ∷ rest
      → status ≡ error
      → Stopping from words status
  bad_jobs :
      (value : String) (rest : List String)
      → NotRead from.u32 value
      → words ≡ "--jobs" ∷ value ∷ rest
      → status ≡ error
      → Stopping from words status
  bad_seeds :
      (value : String) (rest : List String)
      → NotRead from.u32 value
      → words ≡ "--seeds" ∷ value ∷ rest
      → status ≡ error
      → Stopping from words status
  bad_rate :
      (value : String) (rest : List String)
      → NotRead from.real value
      → words ≡ "--rate" ∷ value ∷ rest
      → status ≡ error
      → Stopping from words status
  bad_padding :
      (value : String) (rest : List String)
      → NotRead from.real value
      → words ≡ "--padding" ∷ value ∷ rest
      → status ≡ error
      → Stopping from words status

same_false : (s t : String) → s ≢ t → (s same t) ≡ false
same_false s t other = elim (Bool-cases (s same t)) [
  | inl e ↦ absurd (other ((eq_iff s t).0 e))
  | inr e ↦ e
]

-- The tests that the loop makes of a flag that takes a value.
abbrev IsPlain : String → Type 0
IsPlain flag = (is_help flag ≡ false) × (is_compare flag ≡ false)

TakesValue-IsPlain : (flag : String) → TakesValue flag → IsPlain flag
TakesValue-IsPlain flag (h, h', c) =
    (rw (same_false _ _ h, same_false _ _ h') refl, same_false _ _ c)

is_help_lem : (flag : String) → (flag ≡ "--help") ⊎ (flag ≡ "-h") → is_help flag ≡ true
is_help_lem flag (inl e) = rw e refl
is_help_lem flag (inr e) = rw e refl

parse_value-NotRead :
    {T : Type 0} (from_chars : String → Option (T × ℕ)) (text : String)
    → NotRead from_chars text
    → parse_value from_chars text ≡ none
unfolding parse_value
parse_value-NotRead from_chars text (inl e) = rw (e, parse_value) refl
parse_value-NotRead from_chars text (inr (v, n, e, short)) =
    rw (e, parse_value) (ground (arith, short))

stopped_not : {W : Type 0} {status : Status} {o : Options W} → stopped status ≢ finished o
stopped_not e = cc

module _ {W : Type 0} (from : FromChars W) (o : Options W) where
  set_option-unknown :
      (flag value : String) → All (λ k. flag ≢ k) value_flags → set_option from flag value o ≡ none
  unfolding set_option
  set_option-unknown flag value (n1, (n2, (n3, (n4, (n5, (n6, (n7, (n8, (n9, _))))))))) =
      rw
        (
          same_false _ _ n1,
          same_false _ _ n2,
          same_false _ _ n3,
          same_false _ _ n4,
          same_false _ _ n5,
          same_false _ _ n6,
          same_false _ _ n7,
          same_false _ _ n8,
          same_false _ _ n9,
        )
        refl

  fails :
      (flag value : String) (rest : List String)
      → IsPlain flag
      → set_option from flag value o ≡ none
      → parse_loop from o (flag ∷ value ∷ rest) ≡ stopped error
  unfolding parse_loop
  fails flag value rest (h, c) e = rw (h, c, e) refl

  helps :
      (flag : String) (rest : List String)
      → is_help flag ≡ true
      → parse_loop from o (flag ∷ rest) ≡ stopped help_requested
  unfolding parse_loop
  helps flag [] h = rw h refl
  helps flag (value ∷ rest) h = rw h refl

  misses : (flag : String) → IsPlain flag → parse_loop from o (flag ∷ []) ≡ stopped error
  unfolding parse_loop
  misses flag (h, c) = rw (h, c) refl

  stopping :
      (words : List String) (status : Status)
      → Stopping from words status
      → parse_loop from o words ≡ stopped status
  unfolding set_option
  stopping words status (help flag rest h w s) = rw (w, s) (helps flag rest (is_help_lem flag h))
  stopping words status (missing flag t w s) = rw (w, s) (misses flag (TakesValue-IsPlain flag t))
  stopping words status (unknown flag value rest t n w s) =
      rw (w, s)
        (fails flag value rest (TakesValue-IsPlain flag t) (set_option-unknown flag value n))
  stopping words status (bad_seed value rest e w s) =
      rw (w, s) (fails _ value rest (refl, refl) (rw (parse_value-NotRead _ value e) refl))
  stopping words status (bad_nodes value rest e w s) =
      rw (w, s) (fails _ value rest (refl, refl) (rw (parse_value-NotRead _ value e) refl))
  stopping words status (bad_jobs value rest e w s) =
      rw (w, s) (fails _ value rest (refl, refl) (rw (parse_value-NotRead _ value e) refl))
  stopping words status (bad_seeds value rest e w s) =
      rw (w, s) (fails _ value rest (refl, refl) (rw (parse_value-NotRead _ value e) refl))
  stopping words status (bad_rate value rest e w s) =
      rw (w, s) (fails _ value rest (refl, refl) (rw (parse_value-NotRead _ value e) refl))
  stopping words status (bad_padding value rest e w s) =
      rw (w, s) (fails _ value rest (refl, refl) (rw (parse_value-NotRead _ value e) refl))

compares :
    {W : Type 0} (from : FromChars W) (o : Options W) (flag : String) (rest : List String)
    → is_help flag ≡ false
    → is_compare flag ≡ true
    → parse_loop from o (flag ∷ rest) ≡ parse_loop from (record o { compare = true }) rest
unfolding parse_loop
compares from o flag [] h c = rw (h, c) refl
compares from o flag (value ∷ rest) h c = rw (h, c) refl

takes :
    {W : Type 0} (from : FromChars W) (o o' : Options W) (flag value : String) (rest : List String)
    → IsPlain flag
    → set_option from flag value o ≡ some o'
    → parse_loop from o (flag ∷ value ∷ rest) ≡ parse_loop from o' rest
unfolding parse_loop
takes from o o' flag value rest (h, c) e = rw (h, c, e) refl

finished_eq : {W : Type 0} {o o' : Options W} → finished o ≡ finished o' → o ≡ o'
finished_eq e = cc

-- Words that were read to their end do not see what follows them.
parse_loop-append :
    {W : Type 0} (from : FromChars W) (o o' : Options W) (before after : List String)
    → parse_loop from o before ≡ finished o'
    → parse_loop from o (before ++ after) ≡ parse_loop from o' after
parse_loop-append from o o' [] after e =
    ap (λ x. parse_loop from x after) (finished_eq (unfold parse_loop in e))
parse_loop-append from o o' (flag ∷ []) after e = elim (Bool-cases (is_help flag)) [
  | inl h ↦ absurd (stopped_not (sym (helps from o flag [] h) ∙ e))
  | inr h ↦ elim (Bool-cases (is_compare flag)) [
    | inl c ↦
        let read = sym (compares from o flag [] h c) ∙ e in
        compares from o flag after h c
        ∙ ap (λ x. parse_loop from x after) (finished_eq (unfold parse_loop in read))
    | inr c ↦ absurd (stopped_not (sym (misses from o flag (h, c)) ∙ e))
  ]
]
parse_loop-append from o o' (flag ∷ value ∷ rest) after e =
    let next = parse_loop-append from (record o { compare = true }) o' (value ∷ rest) after in
    let go = λ (o'' : Options _). parse_loop-append from o'' o' rest after in
    elim (Bool-cases (is_help flag)) [
      | inl h ↦ absurd (stopped_not (sym (helps from o flag (value ∷ rest) h) ∙ e))
      | inr h ↦ elim (Bool-cases (is_compare flag)) [
        | inl c ↦
            compares from o flag (value ∷ rest ++ after) h c
            ∙ next (sym (compares from o flag (value ∷ rest) h c) ∙ e)
        | inr c ↦ elim (Option-cases (set_option from flag value o)) [
          | inl bad ↦ absurd (stopped_not (sym (fails from o flag value rest (h, c) bad) ∙ e))
          | inr (o'', good) ↦
              takes from o o'' flag value (rest ++ after) (h, c) good
              ∙ go o'' (sym (takes from o o'' flag value rest (h, c) good) ∙ e)
        ]
      ]
    ]

-- Behind words that were read to their end, `parse_args` stops at `--help` or `-h` with the order
-- to show usage, and with an error at a flag without its value, at an unknown flag, and at a value
-- that std::from_chars does not read in full. It hands on the default options.
pub parse_args-stops :
    {W : Type 0} (d : Doubles W) (from : FromChars W) (o : Options W) (before words : List String)
    (status : Status)
    → parse_loop from (default_options d) before ≡ finished o
    → Stopping from words status
    → parse_args d from (before ++ words) ≡ reject d status
unfolding parse_args
parse_args-stops d from o before words status e h =
    rw
      (
        parse_loop-append from (default_options d) o before words e
            ∙ stopping from o words status h,
        parse_args,
      )
      refl
