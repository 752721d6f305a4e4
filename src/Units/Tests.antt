-- ===== src/Units/Tests.antt =====
-- Examples for the numbers of units.c.
use i_perf_demo_runtime.Common.{[], arith, inl, inr, refl, ◌*◌, ◌^◌, ◌∷◌, ◌≡◌}
use i_perf_demo_runtime.Common.Int.{pos}
use i_perf_demo_runtime.Units.{unit_atof, unit_atof_rate, unit_atoi}
use i_perf_demo_runtime.Units.Suffixes.{unit_atoi-decimal}

unit_atoi-decimal_example :
    (unit_atof (pos 0) (b'1' ∷ b'6' ∷ b'M' ∷ []) ≡ pos (16 * 1000000 * 1024 ^ 2))
    × (unit_atof_rate (pos 0) (b'1' ∷ b'6' ∷ b'M' ∷ []) ≡ pos (16 * 1000000 * 1000 ^ 2))
    × (unit_atoi (pos 0) (b'1' ∷ b'6' ∷ b'M' ∷ []) ≡ 16 * 1024 ^ 2)
unit_atoi-decimal_example =
    unit_atoi-decimal (pos 0) b'1' (b'6' ∷ []) b'M' 2 (refl, (refl, tt))
      (inr (inl (inr refl, refl))) (omega arith)
