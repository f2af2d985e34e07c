-- ===== src/Core/Pulse.antt =====
-- internal/collectors/core: loadavg.go, uptime.go, heartbeat.go and procfs_probe.go. The first line of
-- /proc/loadavg and of /proc/uptime is given, none where the file cannot be read or is empty.
use prostometrics_agent.Base.{
  ℕ, zero, suc, Bool, false, ◌||◌, List, [], ◌∷◌, ◌++◌, Option, none, some, ◌>>=◌, Bytes, codes,
  if◌then◌else◌,
}
use prostometrics_agent.Floats.{Floats}
use prostometrics_agent.Metrics.{label, Emission, count}
use prostometrics_agent.Metrics.Reals.{over, Call, value_real, value_sparse_real}
use prostometrics_agent.Text.Space.{fields}

-- `NewLoadAvg`, with `runtime.NumCPU()`.
abbrev pub cpus_of : ℕ → ℕ
cpus_of zero = 1
cpus_of (suc n) = suc n

abbrev pub heartbeat : List Emission
heartbeat = count (codes "host.heartbeat") 1 ∷ []

-- `Detect` of `FileProbe`.
unfoldable pub detect_files : (Bytes → Bool) → List Bytes → Bool
detect_files exists [] = false
detect_files exists (path ∷ paths) = exists path || detect_files exists paths

module _ (fl : Floats) where
  open fl use {F, parse_float, is_negative}

  pub record LoadAvgSample : Type 0 where
    pub load1 : F
    pub load5 : F
    pub load15 : F

  abbrev load_fields : List Bytes → Option LoadAvgSample
  load_fields (a ∷ b ∷ c ∷ fs) = do
    x ← parse_float a
    y ← parse_float b
    z ← parse_float c
    some (record { load1 = x; load5 = y; load15 = z })
  load_fields fs = none

  unfoldable pub read_load_avg : Option Bytes → Option LoadAvgSample
  read_load_avg none = none
  read_load_avg (some line) = load_fields (fields line)

  abbrev load : ℕ → Bytes → F → List (Call F)
  load cpus window v =
      if is_negative v
      then []
      else value_real (codes "host.load_per_core") (over v cpus)
          (label (codes "window") window ∷ [])
        ∷ []

  abbrev report_load : ℕ → Option LoadAvgSample → Option (List (Call F))
  report_load cpus none = none
  report_load cpus (some avg) = some (
      load cpus (codes "1m") avg.load1
      ++ load cpus (codes "5m") avg.load5
      ++ load cpus (codes "15m") avg.load15)

  -- `Collect` of the load, for the number of processors; an error is none.
  unfoldable pub collect_load : ℕ → Option Bytes → Option (List (Call F))
  collect_load cpus line = report_load cpus (read_load_avg line)

  abbrev first_number : List Bytes → Option F
  first_number [] = none
  first_number (f ∷ fs) = parse_float f

  unfoldable pub read_uptime_seconds : Option Bytes → Option F
  read_uptime_seconds none = none
  read_uptime_seconds (some line) = first_number (fields line)

  abbrev report_uptime : Option F → Option (List (Call F))
  report_uptime none = none
  report_uptime (some v) = some (
      if is_negative v then [] else value_sparse_real (codes "host.uptime_min") (over v 60) [] ∷ [])

  unfoldable pub collect_uptime : Option Bytes → Option (List (Call F))
  collect_uptime line = report_uptime (read_uptime_seconds line)
