-- ===== src/Metrics/Reals.antt =====
-- The calls whose value is a float64 that was read from a text or handed over by a driver.
use prostometrics_agent.Base.{ℕ, List, Bytes, if◌then◌else◌, map}
use prostometrics_agent.Floats.{Floats}
use prostometrics_agent.Metrics.{Label, Emission}

pub data Real (F : Type 0) : Type 0 where
  read : F → Real F
  -- `v/float64(n)`
  over : F → ℕ → Real F
  -- `0`, where a value below it was replaced.
  floor_zero : Real F

pub data Call (F : Type 0) : Type 0 where
  plain : Emission → Call F
  value_real : Bytes → Real F → List Label → Call F
  value_sparse_real : Bytes → Real F → List Label → Call F
  total_real : Bytes → Real F → List Label → Call F

abbrev pub plains : {F : Type 0} → List Emission → List (Call F)
plains = map plain

-- `if v < 0 { v = 0 }`
abbrev pub at_least_zero : (fl : Floats) → fl.F → Real fl.F
at_least_zero fl v = if fl.is_negative v then floor_zero else read v
