-- ===== src/Metrics/Utilization/Steps.antt =====
-- `advance` of src/atlas/metrics/utilization.cpp.
use atlas_simulator.Prelude.{
  ℕ, ◌≤◌, ◌<◌, ◌+◌, ◌-◌, ◌*◌, ◌≡◌, refl, sym, ap, arith, u64_mod, add64_exact, sub64_exact,
  mul64_exact, some, le→leb, ◌==◌, ==_iff, inl, inr, Bool-cases,
}
use atlas_simulator.Model.Types.{Resources}
use atlas_simulator.Metrics.Utilization.{UtilizationIntegral, advance}

-- Time that does not run backwards is accepted, and becomes the time of the last advance.
pub advance_total :
    (u : UtilizationIntegral) (now : ℕ) (in_use : Resources)
    → u.last_checkin ≤ now
    → (u' : UtilizationIntegral) × (advance u now in_use ≡ some u') × (u'.last_checkin ≡ now)
unfolding advance
advance_total u now in_use h = rw (le→leb u.last_checkin now h) (
  _,
  refl,
  (elim (Bool-cases (now == u.last_checkin)) [
    | inl same ↦ rw same (sym ((==_iff _ _).0 same))
    | inr other ↦ rw other refl
  ]),
)

rebuilt :
    (u : UtilizationIntegral) (last cores memory : ℕ)
    → u.last_checkin ≡ last
    → u.core_ticks ≡ cores
    → u.memory_ticks ≡ memory
    → u ≡ record { last_checkin = last; core_ticks = cores; memory_ticks = memory }
rebuilt u last cores memory e f g = rw (← e, ← f, ← g) refl

-- Where nothing wraps around, an advance adds the time that has passed times what is in use.
pub advance_exact :
    (u : UtilizationIntegral) (now : ℕ) (in_use : Resources)
    → u.last_checkin ≤ now
    → now < u64_mod
    → u.core_ticks + (now - u.last_checkin) * in_use.cores < u64_mod
    → u.memory_ticks + (now - u.last_checkin) * in_use.memory_mb < u64_mod
    → advance u now in_use
      ≡ some (record {
        last_checkin = now;
        core_ticks = u.core_ticks + (now - u.last_checkin) * in_use.cores;
        memory_ticks = u.memory_ticks + (now - u.last_checkin) * in_use.memory_mb;
      })
unfolding advance
advance_exact u now in_use le fits cores memory =
    let passed = now - u.last_checkin in
    elim (Bool-cases (now == u.last_checkin)) [
      | inl same ↦
          let e : now ≡ u.last_checkin = (==_iff _ _).0 same in
          let still : passed ≡ 0 = omega arith in
          rw (le→leb u.last_checkin now le) (
            rw same (
              ap some (
                rebuilt u _ _ _ (sym e) (omega (arith, ap (λ x. x * in_use.cores) still))
                  (omega (arith, ap (λ x. x * in_use.memory_mb) still)))))
      | inr other ↦
          rw
            (
              le→leb u.last_checkin now le,
              other,
              sub64_exact now u.last_checkin le fits,
              mul64_exact passed in_use.cores (omega arith),
              mul64_exact passed in_use.memory_mb (omega arith),
              add64_exact u.core_ticks (passed * in_use.cores) cores,
              add64_exact u.memory_ticks (passed * in_use.memory_mb) memory,
            )
            refl
    ]

-- An advance to the time of the last one changes nothing.
pub advance_still :
    (u u' : UtilizationIntegral) (now : ℕ) (in_use : Resources)
    → u.last_checkin ≡ now
    → advance u now in_use ≡ some u'
    → u' ≡ u
unfolding advance
advance_still u u' now in_use e h =
    let made : advance u now in_use ≡ some u =
      rw (le→leb u.last_checkin now (omega (arith, e)), (==_iff now u.last_checkin).1 (sym e))
        refl in
    cc (h, made)
