-- ===== src/Sql.antt =====
-- Query results as the collectors of PostgreSQL and MySQL read them from their drivers.
use prostometrics_agent.Base.{Bool, List, Option}

-- A query that fails, and one that gives rows: each with its values, or none where `Scan` fails, and
-- whether `rows.Err` is an error behind the last.
pub data Rows (R : Type 0) : Type 0 where
  query_failed : Rows R
  rows : List (Option R) → Bool → Rows R
