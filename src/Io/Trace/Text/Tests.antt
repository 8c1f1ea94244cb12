-- ===== src/Io/Trace/Text/Tests.antt =====
-- The file of a header, an arrival and a start, with numbers written as strokes.
use Prim.Native.String.{String}
use atlas_simulator.Prelude.{ℕ, zero, suc, ◌≡◌, refl, List, [], ◌∷◌, map}
use atlas_simulator.Engine.Events.{job_arrival}
use atlas_simulator.Io.Trace.{TraceLine, header_line, event_line, start_line}
use atlas_simulator.Io.Trace.Text.{line_text, file_text, lines_of, is_line}
use atlas_simulator.Io.Trace.Text.Lines.{IsLine, lines_of-file_text}

abbrev strokes : ℕ → String
strokes zero = ""
strokes (suc n) = String.◌∷◌ "|" (strokes n)

strokes-IsLine : (n : ℕ) → IsLine (strokes n)
unfolding is_line
strokes-IsLine zero = record { stays = refl }
strokes-IsLine (suc n) = record { stays = (strokes-IsLine n).stays }

abbrev three : List TraceLine
three =
    header_line 7 8 2 "0.025" "first_fit" "fifo" "2"
    ∷ event_line (record { time = 5; seq = 0; payload = job_arrival 0 })
    ∷ start_line 5 0 1
    ∷ []

lines_of-file_text_example : lines_of (file_text strokes three) ≡ map (line_text strokes) three
unfolding is_line
lines_of-file_text_example = lines_of-file_text strokes strokes-IsLine three (
  (
    record { stays = refl },
    (record { stays = refl }, (record { stays = refl }, record { stays = refl })),
  ),
  (tt, (tt, tt)),
)
