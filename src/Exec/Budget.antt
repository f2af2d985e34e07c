-- ===== src/Exec/Budget.antt =====
-- internal/collectors/exec/collector.go: `NewCollector`, which adds the commands' timeouts up.
use prostometrics_agent.Base.{
  ℕ, ◌+◌, ◌%◌, ◌^◌, ◌≤◌, ◌<◌, ◌||◌, List, [], ◌∷◌, ◌≡◌, ◌∙◌, arith, if◌then◌else◌, ltb, leb, max,
  All,
}
use prostometrics_agent.Base.Integers.{ℤ, pos, negsuc}
use prostometrics_agent.Exec.{Command, default_timeout}

-- The timeout of one command, which is positive.
unfoldable pub command_timeout : ℤ → ℕ
command_timeout (negsuc n) = default_timeout
command_timeout (pos n) = if ltb 0 n then n else default_timeout

-- The bits of the int64 sum.
unfoldable pub total_timeout : ℕ → List Command → ℕ
total_timeout total [] = total
total_timeout total (c ∷ cs) = total_timeout ((total + command_timeout c.timeout) % 2 ^ 64) cs

-- A sum that is negative as an int64, or small, gives way to the default.
unfoldable pub collector_budget : List Command → ℕ
collector_budget commands =
    let total = total_timeout 0 commands in
    if leb (2 ^ 63) total || ltb total default_timeout then default_timeout else total

-- The true sum.
abbrev pub timeouts : List Command → ℕ
timeouts [] = 0
timeouts (c ∷ cs) = command_timeout c.timeout + timeouts cs

total_timeout-exact :
    (cs : List Command) (total : ℕ)
    → total + timeouts cs < 2 ^ 63
    → total_timeout total cs ≡ total + timeouts cs
unfolding total_timeout
total_timeout-exact [] total h = omega arith
total_timeout-exact (c ∷ cs) total h =
    let fits : (total + command_timeout c.timeout) % 2 ^ 64 ≡ total + command_timeout c.timeout =
      omega arith in
    rw fits (total_timeout-exact cs (total + command_timeout c.timeout) (omega arith) ∙ omega arith)

each-le :
    (cs : List Command) (n : ℕ) → timeouts cs ≤ n → All (λ c. command_timeout c.timeout ≤ n) cs
each-le [] n h = tt
each-le (c ∷ cs) n h = (omega arith, each-le cs n (omega arith))

-- Where the sum of the timeouts is below 2 ^ 63 nanoseconds, the collector asks for that sum, at
-- least for the default, and so for enough to let each command use all of its own timeout in turn.
pub collector_budget_lem :
    (commands : List Command)
    → timeouts commands < 2 ^ 63
    → (collector_budget commands ≡ max default_timeout (timeouts commands))
      × All (λ c. command_timeout c.timeout ≤ collector_budget commands) commands
unfolding collector_budget
collector_budget_lem commands h =
    let exact = total_timeout-exact commands 0 (omega arith) in
    let budget : collector_budget commands ≡ max default_timeout (timeouts commands) =
      ground arith in
    (budget, each-le commands (collector_budget commands) (omega arith))
