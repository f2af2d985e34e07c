-- ===== src/Exec.antt =====
-- internal/collectors/exec/collector.go: commands whose printed numbers are reported.
pub mod Labels
pub mod Run
pub mod Budget
use prostometrics_agent.Base.{Bytes, List, ℕ}
use prostometrics_agent.Base.Integers.{ℤ}

pub record Command : Type 0 where
  pub metric : Bytes
  pub path : Bytes
  pub args : List Bytes
  pub kind : Bytes
  pub labels : List Bytes
  pub timeout : ℤ

abbrev pub default_timeout : ℕ
default_timeout = 10_000_000_000

abbrev pub max_output_bytes : ℕ
max_output_bytes = 65536

abbrev pub max_lines_per_command : ℕ
max_lines_per_command = 50
