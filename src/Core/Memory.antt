-- ===== src/Core/Memory.antt =====
-- internal/collectors/core/mem.go: `collectMemProc`.
use prostometrics_agent.Base.{
  ℕ, ◌-◌, Bool, List, [], ◌∷◌, none, some, Bytes, codes, if◌then◌else◌, leb,
}
use prostometrics_agent.Base.Maps.{lookup, insert}
use prostometrics_agent.Metrics.{whole, label, Emission, value_sparse}
use prostometrics_agent.Text.Number.{parse_uint}
use prostometrics_agent.Text.Search.{trim_suffix}
use prostometrics_agent.Text.Space.{fields}

abbrev add_number : Bytes → ℕ × Bool → List (Bytes × ℕ) → List (Bytes × ℕ)
add_number key (n, ok) values = if ok then insert key n values else values

abbrev mem_line : List Bytes → List (Bytes × ℕ) → List (Bytes × ℕ)
mem_line (f ∷ g ∷ fs) values = add_number (trim_suffix f (codes ":")) (parse_uint g) values
mem_line fs values = values

unfoldable pub read_mem_lines : List Bytes → List (Bytes × ℕ) → List (Bytes × ℕ)
read_mem_lines [] values = values
read_mem_lines (line ∷ lines) values = read_mem_lines lines (mem_line (fields line) values)

-- A missing key reads as 0.
abbrev number_of : Bytes → List (Bytes × ℕ) → ℕ
number_of key m = elim (lookup key m) [ none ↦ 0 | some n ↦ n ]

abbrev pub used_of : ℕ → ℕ → ℕ
used_of all unused = if leb unused all then all - unused else 0

abbrev capacity : Bytes → Bytes → ℕ → Emission
capacity metric typ v = value_sparse metric (whole v) (label (codes "type") typ ∷ [])

unfoldable pub emit_mem : List (Bytes × ℕ) → List Emission
emit_mem m =
    let mem = codes "host.mem.capacity_kb" in
    let swap = codes "host.swap.capacity_kb" in
    let mem_total = number_of (codes "MemTotal") m in
    let mem_available = number_of (codes "MemAvailable") m in
    let swap_total = number_of (codes "SwapTotal") m in
    let swap_free = number_of (codes "SwapFree") m in
    capacity mem (codes "total") mem_total
    ∷ capacity mem (codes "used") (used_of mem_total mem_available)
    ∷ capacity mem (codes "free") (number_of (codes "MemFree") m)
    ∷ capacity mem (codes "available") mem_available
    ∷ capacity swap (codes "total") swap_total
    ∷ capacity swap (codes "used") (used_of swap_total swap_free)
    ∷ capacity swap (codes "free") swap_free
    ∷ []

-- `collectMemProc`, on the lines of the file.
unfoldable pub collect_mem_proc : List Bytes → List Emission
collect_mem_proc lines = emit_mem (read_mem_lines lines [])
