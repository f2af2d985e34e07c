-- ===== src/Core/Kernel.antt =====
-- internal/collectors/core/kernel.go. The lines of /proc/vmstat are given.
use prostometrics_agent.Base.{
  ℕ, Bool, true, false, List, [], ◌∷◌, ◌++◌, Option, none, some, Bytes, codes, if◌then◌else◌,
}
use prostometrics_agent.Base.Maps.{lookup, insert}
use prostometrics_agent.Metrics.{whole, Label, label, Emission, total}
use prostometrics_agent.Text.Number as Number
use prostometrics_agent.Text.Space.{trim_space, fields}

abbrev keep_number : Bytes → ℕ × Bool → List (Bytes × ℕ) → List (Bytes × ℕ)
keep_number key (n, ok) out = if ok then insert key n out else out

abbrev keyed_line : List Bytes → List (Bytes × ℕ) → List (Bytes × ℕ)
keyed_line (key ∷ raw ∷ fs) out = keep_number key (Number.parse_uint (trim_space raw)) out
keyed_line fs out = out

unfoldable pub read_keyed_lines : List Bytes → List (Bytes × ℕ) → List (Bytes × ℕ)
read_keyed_lines [] out = out
read_keyed_lines (line ∷ lines) out = read_keyed_lines lines (keyed_line (fields line) out)

-- The lines of the file, none if it cannot be opened or not be read to its end.
unfoldable pub read_keyed_proc_file : Option (List Bytes) → Option (List (Bytes × ℕ))
unfolding read_keyed_lines
read_keyed_proc_file none = none
read_keyed_proc_file (some lines) = some (read_keyed_lines lines [])

abbrev counted : Bytes → List Label → Option ℕ → List Emission
counted metric labels none = []
counted metric labels (some v) = total metric (whole v) labels ∷ []

abbrev swap : List (Bytes × ℕ) → Bytes → Bytes → List Emission
swap vmstat dir key =
    counted (codes "host.swap_io_pages") (label (codes "dir") dir ∷ []) (lookup key vmstat)

abbrev report : Option (List (Bytes × ℕ)) → List Emission × Bool
report none = ([], true)
report (some vmstat) = (
  counted (codes "host.oom_kills") [] (lookup (codes "oom_kill") vmstat)
      ++ swap vmstat (codes "in") (codes "pswpin")
      ++ swap vmstat (codes "out") (codes "pswpout"),
  false,
)

-- `Collect`: what is sent, and whether it returns an error.
unfoldable pub collect : Option (List Bytes) → List Emission × Bool
collect file = report (read_keyed_proc_file file)
