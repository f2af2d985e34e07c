-- ===== src/Core/Counters.antt =====
-- internal/collectors/core/util.go.
use prostometrics_agent.Base.{ℕ, ◌-◌, Bytes, if◌then◌else◌, leb}
use prostometrics_agent.Text.Number as Number
use prostometrics_agent.Text.Space.{trim_space}

-- The value of `v, _ := parseUint(s)`.
unfoldable pub parse_uint : Bytes → ℕ
parse_uint s = (Number.parse_uint (trim_space s)).0

abbrev pub diff_uint : ℕ → ℕ → ℕ
diff_uint a b = if leb a b then b - a else 0
