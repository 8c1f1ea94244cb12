-- ===== src/Io/Trace/Text.antt =====
-- The text that src/atlas/io/trace.cpp puts into the file. What std::format makes of a number is a
-- parameter.
pub mod Lines
mod Tests
use Prim.Native.String
use Prim.Native.String.{String, ◌++◌}
use Prim.Native.Char.{Char, code}
use atlas_simulator.Prelude.{ℕ, Bool, true, not, ◌&&◌, ◌==◌, List, [], ◌∷◌, if◌then◌else◌}
use atlas_simulator.Model.Types.{Job}
use atlas_simulator.Engine.Events.{Event, EventPayload, job_arrival, job_finish, sim_end}
use atlas_simulator.Io.Trace.{TraceLine, header_line, spec_line, event_line, start_line}

module _ (format : ℕ → String) where
  -- The visitor of `to_jsonl`.
  pub payload_text : EventPayload → String
  payload_text (job_arrival job) = ",\"ev\":\"JobArrival\",\"job\":" ++ format job
  payload_text (job_finish job node) =
      ",\"ev\":\"JobFinish\",\"job\":" ++ (format job ++ (",\"node\":" ++ format node))
  payload_text sim_end = ",\"ev\":\"SimEnd\""

  unfoldable pub to_jsonl : Event → String
  unfolding payload_text
  to_jsonl e =
      "{\"t\":"
      ++ (format e.time ++ (",\"seq\":" ++ (format e.seq ++ (payload_text e.payload ++ "}"))))

  -- The texts that the constructor, job_spec, write and placement hand to write_line.
  unfoldable pub line_text : TraceLine → String
  unfolding to_jsonl
  line_text (header_line seed nodes jobs arrival_rate scheduler queue padding) =
      "{\"ev\":\"header\",\"seed\":"
      ++ (format seed
          ++ (",\"nodes\":"
              ++ (format nodes
                  ++ (",\"jobs\":"
                      ++ (format jobs
                          ++ (",\"arrival_rate\":"
                              ++ (arrival_rate
                                  ++ (",\"scheduler\":\""
                                      ++ (scheduler
                                          ++ ("\",\"queue\":\""
                                              ++ (queue
                                                  ++ ("\",\"padding\":"
                                                      ++ (padding ++ "}")))))))))))))
  line_text (spec_line j) =
      "{\"ev\":\"job\",\"job\":"
      ++ (format j.id
          ++ (",\"submit\":"
              ++ (format j.submit_time
                  ++ (",\"dur\":"
                      ++ (format j.duration
                          ++ (",\"est\":"
                              ++ (format j.estimated_duration
                                  ++ (",\"cores\":"
                                      ++ (format j.request.cores
                                          ++ (",\"mem_mb\":"
                                              ++ (format j.request.memory_mb ++ "}")))))))))))
  line_text (event_line e) = to_jsonl e
  line_text (start_line time job node) =
      "{\"t\":"
      ++ (format time
          ++ (",\"ev\":\"JobStart\",\"job\":"
              ++ (format job ++ (",\"node\":" ++ (format node ++ "}")))))

  -- The file: write_line puts an end of line behind each text.
  unfoldable pub file_text : List TraceLine → String
  unfolding line_text
  file_text [] = ""
  file_text (l ∷ ls) = line_text l ++ ("\n" ++ file_text ls)

-- A reader's view of the file: what stands before each end of line.
pub grow : Char → List String → List String
grow c [] = String.◌∷◌ c "" ∷ []
grow c (l ∷ ls) = String.◌∷◌ c l ∷ ls

pub lines_of : String → List String
unfolding grow
lines_of String.[] = []
lines_of (String.◌∷◌ c s) = let rest = lines_of s in if code c == 10 then "" ∷ rest else grow c rest

-- No end of line stands in the text.
pub is_line : String → Bool
is_line String.[] = true
is_line (String.◌∷◌ c s) = not (code c == 10) && is_line s
