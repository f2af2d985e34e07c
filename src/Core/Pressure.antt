-- ===== src/Core/Pressure.antt =====
-- internal/collectors/core/pressure.go. The files under /proc/pressure are given.
use prostometrics_agent.Base.{
  Bool, true, false, ◌||◌, List, [], ◌∷◌, ◌++◌, Option, none, some, Bytes, codes, if◌then◌else◌,
  ◌===◌,
}
use prostometrics_agent.Base.Maps.{insert}
use prostometrics_agent.Floats.{Floats}
use prostometrics_agent.Metrics.{label}
use prostometrics_agent.Metrics.Reals.{read, Call, value_real}
use prostometrics_agent.Text.Search.{cut}
use prostometrics_agent.Text.Space.{fields}

abbrev pub pressure_resources : List Bytes
pressure_resources = codes "cpu" ∷ codes "memory" ∷ codes "io" ∷ []

-- A file that is not there, one that cannot be opened or not be read to its end, and its lines.
pub data PressureFile : Type 0 where
  missing unreadable : PressureFile
  lines : List Bytes → PressureFile

-- What `readPressureFile` returns.
pub data Averages (F : Type 0) : Type 0 where
  not_exist failed : Averages F
  averages : List (Bytes × F) → Averages F

module _ (fl : Floats) where
  open fl use {F, parse_float, is_negative}

  abbrev keep : Bytes → Option F → List (Bytes × F) → List (Bytes × F)
  keep kind none out = out
  keep kind (some v) out = insert kind v out

  abbrev pressure_field : Bytes → Option (Bytes × Bytes) → List (Bytes × F) → List (Bytes × F)
  pressure_field kind none out = out
  pressure_field kind (some (name, raw)) out =
      if name === codes "avg10" then keep kind (parse_float raw) out else out

  unfoldable pub pressure_fields : Bytes → List Bytes → List (Bytes × F) → List (Bytes × F)
  pressure_fields kind [] out = out
  pressure_fields kind (f ∷ fs) out = pressure_fields kind fs (pressure_field kind (cut f b'=') out)

  abbrev pressure_line : List Bytes → List (Bytes × F) → List (Bytes × F)
  pressure_line (kind ∷ f ∷ fs) out =
      if (kind === codes "some") || (kind === codes "full")
      then pressure_fields kind (f ∷ fs) out
      else out
  pressure_line fs out = out

  unfoldable pub pressure_lines : List Bytes → List (Bytes × F) → List (Bytes × F)
  unfolding pressure_fields
  pressure_lines [] out = out
  pressure_lines (line ∷ ls) out = pressure_lines ls (pressure_line (fields line) out)

  abbrev not_empty : List (Bytes × F) → Averages F
  not_empty [] = failed
  not_empty (a ∷ out) = averages (a ∷ out)

  unfoldable pub read_pressure_file : PressureFile → Averages F
  unfolding pressure_lines
  read_pressure_file missing = not_exist
  read_pressure_file unreadable = failed
  read_pressure_file (lines ls) = not_empty (pressure_lines ls [])

  abbrev pressure : Bytes → Bytes → F → List (Call F)
  pressure resource kind avg10 =
      if is_negative avg10
      then []
      else value_real (codes "host.pressure_pct") (read avg10)
          (label (codes "resource") resource ∷ label (codes "kind") kind ∷ [])
        ∷ []

  unfoldable pub report_averages : Bytes → List (Bytes × F) → List (Call F)
  report_averages resource [] = []
  report_averages resource ((kind, avg10) ∷ samples) =
      pressure resource kind avg10 ++ report_averages resource samples

  abbrev add_resource : Bytes → Averages F → List (Call F) × Bool → List (Call F) × Bool
  add_resource resource not_exist (sent, err) = (sent, err)
  add_resource resource failed (sent, err) = (sent, true)
  add_resource resource (averages samples) (sent, err) =
      (report_averages resource samples ++ sent, err)

  unfoldable pub collect_resources : (Bytes → PressureFile) → List Bytes → List (Call F) × Bool
  collect_resources file [] = ([], false)
  collect_resources file (r ∷ rs) =
      add_resource r (read_pressure_file (file r)) (collect_resources file rs)

  -- `Collect`: what is sent, and whether it returns an error.
  unfoldable pub collect : (Bytes → PressureFile) → List (Call F) × Bool
  unfolding collect_resources
  collect file = collect_resources file pressure_resources

  abbrev is_readable : Averages F → Bool
  is_readable (averages samples) = true
  is_readable not_exist = false
  is_readable failed = false

  -- `Detect` of the probe.
  unfoldable pub detect_resources : (Bytes → PressureFile) → List Bytes → Bool
  detect_resources file [] = false
  detect_resources file (r ∷ rs) =
      is_readable (read_pressure_file (file r)) || detect_resources file rs

  unfoldable pub detect : (Bytes → PressureFile) → Bool
  unfolding detect_resources
  detect file = detect_resources file pressure_resources
