-- ===== src/Model/Workload/Tests.antt =====
-- Three jobs of src/atlas/model/workload.hpp, drawn with whole numbers.
use atlas_simulator.Prelude.{ℕ, refl, arith}
use atlas_simulator.Doubles.{whole, whole-IsRounded, counter}
use atlas_simulator.Model.Workload.{WorkloadGenerator, generate}
use atlas_simulator.Model.Workload.Steady.{one_a_second}
use atlas_simulator.Model.Workload.Jobs.{Generated, generate-Generated}

abbrev generator : WorkloadGenerator ℕ ℕ
generator = record { rng = 5; arrival_rate = 1; estimate_padding = 2 }

generate-Generated_example :
    Generated whole counter 600000000 3 (generate whole counter generator 3)
generate-Generated_example =
    generate-Generated whole counter whole-IsRounded generator 600000000 2 3 one_a_second refl refl
      (omega arith) (omega arith) (omega arith) (omega arith) (omega arith)
