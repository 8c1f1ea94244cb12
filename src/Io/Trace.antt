-- ===== src/Io/Trace.antt =====
-- src/atlas/io/trace.hpp and trace.cpp: which records the writer emits, and when it emits none.
-- A record is the data of its line.
pub mod Text
use Prim.Native.String.{String}
use atlas_simulator.Prelude.{ℕ, List, [], ◌∷◌, ◌++◌, Option, none, some}
use atlas_simulator.Model.Types.{Job}
use atlas_simulator.Engine.Events.{Event}

-- The arrival rate and the padding of the header line come as the texts of two doubles.
pub data TraceLine : Type 0 where
  header_line : (seed nodes jobs : ℕ) → (arrival_rate scheduler queue padding : String) → TraceLine
  spec_line : Job → TraceLine
  event_line : Event → TraceLine
  start_line : (time job node : ℕ) → TraceLine

-- `out_` is null, or a file that holds these lines.
pub record TraceWriter : Type 0 where
  pub out : Option (List TraceLine)

unfoldable pub write_line : TraceWriter → TraceLine → TraceWriter
write_line w line = elim w.out [
  | none ↦ w
  | some lines ↦ record { out = some (lines ++ line ∷ []) }
]

unfoldable pub write : TraceWriter → Event → TraceWriter
unfolding write_line
write w e = elim w.out [ none ↦ w | some _ ↦ write_line w (event_line e) ]

unfoldable pub job_spec : TraceWriter → Job → TraceWriter
unfolding write_line
job_spec w j = elim w.out [ none ↦ w | some _ ↦ write_line w (spec_line j) ]

unfoldable pub placement : TraceWriter → ℕ → ℕ → ℕ → TraceWriter
unfolding write_line
placement w t job node = elim w.out [ none ↦ w | some _ ↦ write_line w (start_line t job node) ]
