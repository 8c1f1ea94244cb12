-- ===== src/Metrics/Utilization.antt =====
-- src/atlas/metrics/utilization.hpp and utilization.cpp: the integral of the resources in use.
pub mod Steps
use atlas_simulator.Prelude.{
  ℕ, ◌≡◌, Option, some, leb, ◌==◌, if◌then◌else◌, assert, ◌>>=◌, ◌>>◌, add64, sub64, mul64,
}
use atlas_simulator.Model.Types.{Resources}

pub record UtilizationIntegral : Type 0 where
  pub last_checkin : ℕ
  pub core_ticks : ℕ
  pub memory_ticks : ℕ

abbrev pub no_utilization : UtilizationIntegral
no_utilization = record { last_checkin = 0; core_ticks = 0; memory_ticks = 0 }

unfoldable pub advance : UtilizationIntegral → ℕ → Resources → Option UtilizationIntegral
advance u now in_use = do
  assert (leb u.last_checkin now)
  let interval = sub64 now u.last_checkin
  some (
      if now == u.last_checkin then u else record {
        last_checkin = now;
        core_ticks = add64 u.core_ticks (mul64 interval in_use.cores);
        memory_ticks = add64 u.memory_ticks (mul64 interval in_use.memory_mb);
      })
