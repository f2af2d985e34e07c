-- ===== src/Agent.antt =====
-- internal/agent: the constants of settings.go, and the collector as the runner sees it.
pub mod Timeout
pub mod Limiter
pub mod Startup
pub mod Pool
use prostometrics_agent.Base.{ℕ, ◌*◌, Option, Bytes}
use prostometrics_agent.Base.Integers.{ℤ, pos}

-- A `time.Duration` is a number of nanoseconds.
abbrev pub second : ℕ
second = 1_000_000_000

abbrev pub collect_timeout : ℤ
collect_timeout = pos (3 * second)

abbrev pub max_collect_timeout : ℤ
max_collect_timeout = pos (30 * second)

abbrev pub max_concurrency : ℕ
max_concurrency = 4

abbrev pub core_fast_every : ℤ
core_fast_every = pos (10 * second)

-- `Collector` with the answers of its methods; `timeout` is there if it is a `CollectorTimeout`.
pub record Collector : Type 0 where
  pub id : Bytes
  pub every : ℤ
  pub timeout : Option ℤ
