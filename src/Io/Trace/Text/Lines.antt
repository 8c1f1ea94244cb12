-- ===== src/Io/Trace/Text/Lines.antt =====
-- The file that src/atlas/io/trace.cpp writes, read back line by line.
use Prim.Native.String.{String, ◌++◌}
use Prim.Native.String.append
use Prim.Native.Char.{Char, code}
use atlas_simulator.Prelude.{
  ℕ, ◌≡◌, refl, ap, ◌∙◌, inl, inr, true, false, ◌==◌, Bool-cases, List, [], ◌∷◌, map, All,
}
use atlas_simulator.Engine.Events.{EventPayload, job_arrival, job_finish, sim_end}
use atlas_simulator.Io.Trace.{TraceLine, header_line, spec_line, event_line, start_line}
use atlas_simulator.Io.Trace.Text.{
  payload_text, to_jsonl, line_text, file_text, grow, lines_of, is_line,
}

-- A first character that is no end of line, before such a text.
is_line-cons :
    (c : Char) (s : String)
    → is_line (String.◌∷◌ c s) ≡ true
    → ((code c == 10) ≡ false) × (is_line s ≡ true)
unfolding is_line
is_line-cons c s h = elim (Bool-cases (code c == 10)) [
  | inl e ↦ let bad : false ≡ true = (rw e at h) in cc
  | inr e ↦ (e, rw e at h)
]

is_line-append : (s t : String) → is_line s ≡ true → is_line t ≡ true → is_line (s ++ t) ≡ true
unfolding is_line
is_line-append String.[] t h k = rw (append.nil t) k
is_line-append (String.◌∷◌ c s) t h k =
    let (e, rest) = is_line-cons c s h in rw (append.cons c s t) (rw e (is_line-append s t rest k))

lines_of-append : (s t : String) → is_line s ≡ true → lines_of (s ++ ("\n" ++ t)) ≡ s ∷ lines_of t
unfolding lines_of grow
lines_of-append String.[] t h =
    rw (append.nil ("\n" ++ t), append.cons "\n" "" t, append.nil t) refl
lines_of-append (String.◌∷◌ c s) t h =
    let (e, rest) = is_line-cons c s h in
    rw (append.cons c s ("\n" ++ t)) (rw e (ap (grow c) (lines_of-append s t rest)))

-- A text that stays on its line.
pub record IsLine (s : String) : Type 0 where
  pub stays : is_line s ≡ true

-- What the caller puts into a line as text has no end of line.
abbrev pub IsFlat : TraceLine → Type 0
IsFlat (header_line seed nodes jobs arrival_rate scheduler queue padding) =
    IsLine arrival_rate × (IsLine scheduler × (IsLine queue × IsLine padding))
IsFlat (spec_line j) = Unit
IsFlat (event_line e) = Unit
IsFlat (start_line time job node) = Unit

IsLine-append : (s t : String) → IsLine s → IsLine t → IsLine (s ++ t)
IsLine-append s t h k = record { stays = is_line-append s t h.stays k.stays }

-- A label, a text behind it, and the rest of the line.
member :
    (label text rest : String)
    → is_line label ≡ true
    → IsLine text
    → IsLine rest
    → IsLine (label ++ (text ++ rest))
member label text rest h k l = IsLine-append _ _ (record { stays = h }) (IsLine-append _ _ k l)

last_member : (label text : String) → is_line label ≡ true → IsLine text → IsLine (label ++ text)
last_member label text h k = IsLine-append _ _ (record { stays = h }) k

closing : IsLine "}"
unfolding is_line
closing = record { stays = refl }

module _ (format : ℕ → String) (flat : (n : ℕ) → IsLine (format n)) where
  payload-IsLine : (p : EventPayload) → IsLine (payload_text format p)
  unfolding payload_text is_line
  payload-IsLine (job_arrival job) = last_member _ _ refl (flat job)
  payload-IsLine (job_finish job node) =
      member _ _ _ refl (flat job) (last_member _ _ refl (flat node))
  payload-IsLine sim_end = record { stays = refl }

  line_text-IsLine : (l : TraceLine) → IsFlat l → IsLine (line_text format l)
  unfolding line_text to_jsonl is_line
  line_text-IsLine (header_line seed nodes jobs arrival_rate scheduler queue padding) v =
      member _ _ _ refl (flat seed) (
        member _ _ _ refl (flat nodes) (
          member _ _ _ refl (flat jobs) (
            member _ _ _ refl v.0 (
              member _ _ _ refl v.1.0
                (member _ _ _ refl v.1.1.0 (member _ _ _ refl v.1.1.1 closing))))))
  line_text-IsLine (spec_line j) v = member _ _ _ refl (flat j.id) (
      member _ _ _ refl (flat j.submit_time) (
        member _ _ _ refl (flat j.duration) (
          member _ _ _ refl (flat j.estimated_duration) (
            member _ _ _ refl (flat j.request.cores)
              (member _ _ _ refl (flat j.request.memory_mb) closing)))))
  line_text-IsLine (event_line e) v =
      member _ _ _ refl (flat e.time)
        (member _ _ _ refl (flat e.seq) (IsLine-append _ _ (payload-IsLine e.payload) closing))
  line_text-IsLine (start_line time job node) v =
      member _ _ _ refl (flat time)
        (member _ _ _ refl (flat job) (member _ _ _ refl (flat node) closing))

  -- If neither the text that std::format makes of a number nor the texts that are put into a header
  -- have an end of line, then the file, cut at its ends of lines, holds one text for each record, in
  -- order, and nothing else.
  pub lines_of-file_text :
      (ls : List TraceLine)
      → All IsFlat ls
      → lines_of (file_text format ls) ≡ map (line_text format) ls
  unfolding file_text lines_of
  lines_of-file_text [] v = refl
  lines_of-file_text (l ∷ ls) v =
      lines_of-append (line_text format l) (file_text format ls) (line_text-IsLine l v.0).stays
      ∙ ap (◌∷◌ (line_text format l)) (lines_of-file_text ls v.1)
