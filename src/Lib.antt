-- ===== src/Lib.antt =====
-- A model of the simulator of a compute cluster under src/atlas, with the theorems that make it
-- correct. The program builds a list of jobs and a cluster of nodes, and plays them through a queue
-- of timed events. An arrival puts a job at the end of the waiting list; a finish gives a job's
-- resources back; after both, jobs are placed from the front of the list while a placement policy
-- finds a node, and then a queue policy may let jobs behind a blocked head go first.
--
-- The files and the code they are about:
-- - Prelude: Boolean tests, lists over native numbers, assertions, and machine words with their
--   wrap-around (add32, sub64 and so on). Ticks, ids, cores and memory are numbers.
-- - Model/Types: src/atlas/model/resources.hpp, node.hpp, job.hpp and engine/clock.hpp.
-- - Model/Cluster: src/atlas/model/cluster.hpp. allocate and release give `none` where an assertion
--   fails or the index is out of range. Model/Cluster/Moves is about allocate and release,
--   Model/Cluster/Sums about the three totals.
-- - Sched/Place: src/atlas/sched/scheduler.hpp, first_fit.cpp, round_robin.cpp, least_loaded.cpp,
--   resource_aware.cpp and dominant_share.hpp. The children hold the contract of `place`, a scan
--   that keeps the best node, the round robin cursor and its turn, the order on shares, and in Tops
--   and Dominance what the last two policies prefer, in each node's own resources.
-- - Sched/Queue: src/atlas/sched/queue_policy.hpp, fifo_queue.cpp and backfill.cpp. Shadow is about
--   shadow_time, Held about the time by which a node can hold a request, Pick about the answer,
--   Reserve about the reservation after an admitted job starts.
-- - Sched/Factory: src/atlas/sched/factory.cpp and queue_factory.cpp.
-- - Metrics/Utilization: advance of src/atlas/metrics/utilization.cpp.
-- - Metrics/Samples: src/atlas/metrics/time_sample.cpp, and the rank of percentiles.cpp.
-- - Metrics/Percentiles: src/atlas/metrics/percentiles.cpp. Parts is about one selection, Nearest
--   about the three values, and Sorting gives a selection that does what it should.
-- - Metrics/Load: src/atlas/metrics/load_factor.hpp, offered_load.cpp, and mean of utilization.cpp.
-- - Doubles: the operations on double, and the engine, as records that the users of both take.
-- - Model/Random and Model/Workload: src/atlas/model/random.hpp, workload.hpp and profiles.hpp. Draws
--   is about the two loops of generate, Jobs about its result.
-- - Io/Trace: what src/atlas/io/trace.cpp writes, as values. Text gives the text of each value and
--   of the file, and its child Lines reads the file back.
-- - Io/Options: src/atlas/io/options.hpp and options.cpp. Accepted is about what passes, Words about
--   options that are written out, Stops about the words at which the parser stops.
-- - Io/Compare: src/atlas/io/compare.hpp and compare.cpp up to the report. Cells and Grid are about
--   the table, Wins about win_counts.
-- - Io/Summary: the rest of src/atlas/io/compare.cpp, for the numbers that report_comparison prints.
--   Rows is about the lines of its table.
-- - Io/Report: src/atlas/io/report.cpp, for the numbers that report prints. Lines is about a run.
-- - Program: src/main.cpp. Simulate is about drawn jobs and their runs, Sweep about one
--   run of the sweep of compare.cpp, Table about all of it, Exit about all that main comes to.
-- - Engine/Events: src/atlas/engine/event.hpp and event_queue.hpp. The heap is a list from which
--   pop takes the most important event.
-- - Engine/Board: no code, but what a run is meant to do. A board has a time and a place for each
--   job, and steps by the rules of the jobs and the capacities. Capacity is about its courses.
-- - Engine/Simulator: src/atlas/engine/simulator.hpp and simulator.cpp, one function for each
--   method and each loop body. Ledger, Start, Finish and Invariant state the invariant and how a
--   start and a finish change it; Placing, Views, Picks, Drain, Popped, Events, Run and Loop follow
--   the methods; Arrivals and Seed are about the first loop of run, Outcome about the whole of it,
--   Times and Punctual about the times that it writes, Held, Usage, Spent, Metering and Integral
--   about the utilization integral,
--   Complete about runs in which every job fits on some node, Boards, Horizon and Course about the
--   course on the board that a run takes, Readings about what the metrics read off a run, and
--   Drawn about runs of generated jobs.
--
-- A method that fails an assertion or reads outside a vector has the value `none`. The loop of
-- run has a bound of `2 * jobs + 2` rounds: each round handles the arrival or the finish of a job,
-- and one more handles the end. The second loop of drain has a bound of as many rounds as jobs
-- wait, since each round but the last removes one.
-- The round robin loop has the bound that it has in the code, the node count.
--
-- Each loop of compare.cpp and workload.hpp is a recursion on the rounds that are left, and that of
-- parse_args one on the list of the arguments.
--
-- Library code: std::priority_queue is modelled by its contract (pop takes a greatest element by
-- the comparison), std::sort by an insertion sort with the same comparison. Parameters of the
-- model are: the doubles (Doubles, and IsRounded for what rounding, order and the conversions in range
-- guarantee), the engine std::mt19937_64 (Engine, whose values have 64 bits), std::nth_element (NthElement, with its guarantees on the order and the
-- values), std::from_chars (FromChars, and ToChars for texts that it reads back), whether
-- std::fopen opens a file, and what std::format makes of a number.
--
-- Not modelled: the text of the usage and of the reports, and the streams.
pub mod Prelude
pub mod Doubles
pub mod Model
pub mod Sched
pub mod Metrics
pub mod Engine
pub mod Io
pub mod Program
