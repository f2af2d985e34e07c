-- ===== src/Agent/Timeout.antt =====
-- internal/agent/runner.go: the deadline of one collection, and the interval of a collector.
use prostometrics_agent.Agent.{Collector, collect_timeout, max_collect_timeout, core_fast_every}
use prostometrics_agent.Base.{
  Bool, false, ◌&&◌, ◌≡◌, ◌⊎◌, inl, inr, refl, Bool-cases, Option, none, some, if◌then◌else◌, arith,
}
use prostometrics_agent.Base.Integers.{ℤ, pos, ◌≤ℤ◌, ◌<ℤ◌, ltb_ℤ}

-- The longer of the default and what a `CollectorTimeout` asks for.
unfoldable pub requested_timeout : Option ℤ → ℤ
requested_timeout none = collect_timeout
requested_timeout (some requested) =
    if ltb_ℤ collect_timeout requested then requested else collect_timeout

unfoldable pub cap_by_every : ℤ → ℤ → ℤ
cap_by_every every timeout = if ltb_ℤ (pos 0) every && ltb_ℤ every timeout then every else timeout

unfoldable pub cap_by_max : ℤ → ℤ
cap_by_max timeout = if ltb_ℤ max_collect_timeout timeout then max_collect_timeout else timeout

unfoldable pub collector_timeout : Collector → ℤ
unfolding requested_timeout cap_by_every cap_by_max
collector_timeout c = cap_by_max (cap_by_every c.every (requested_timeout c.timeout))

-- The interval that `runCollector` gives the ticker.
unfoldable pub ticker_every : Collector → ℤ
ticker_every c = if ltb_ℤ (pos 0) c.every then c.every else core_fast_every

-- The test of `logStartup`: a collector asked for more than it is granted.
unfoldable pub asks_too_much : Collector → Option ℤ → Bool
unfolding collector_timeout
asks_too_much c none = false
asks_too_much c (some requested) = ltb_ℤ (collector_timeout c) requested

-- A collection gets at most `MaxCollectTimeout`, and either exactly the interval of its collector or
-- at least `CollectTimeout`, so never nothing. With a positive interval that is what the ticker has,
-- and a collection gets no longer than it; with any other the ticker has the default interval, and the
-- interval does not bound the collection.
pub collector_timeout_bounds :
    (c : Collector)
    → (((pos 0 <ℤ c.every) × (ticker_every c ≡ c.every) × (collector_timeout c ≤ℤ c.every))
        ⊎ ((c.every ≤ℤ pos 0) × (ticker_every c ≡ core_fast_every)))
      × (collector_timeout c ≤ℤ max_collect_timeout)
      × (pos 0 <ℤ collector_timeout c)
      × ((collector_timeout c ≡ c.every) ⊎ (collect_timeout ≤ℤ collector_timeout c))
unfolding collector_timeout ticker_every
collector_timeout_bounds c = (
  elim (Bool-cases (ltb_ℤ (pos 0) c.every)) [
    | inl e ↦ inl (ground arith, rw e refl, ground arith)
    | inr e ↦ inr (ground arith, rw e refl)
  ],
  ground arith,
  ground arith,
  ground arith,
)

-- A request is granted exactly when it is at least the default, at most the maximum and, for a
-- collector with a positive interval, at most that interval.
pub collector_timeout_granted :
    (c : Collector) (requested : ℤ)
    → c.timeout ≡ some requested
    → collect_timeout ≤ℤ requested
    → requested ≤ℤ max_collect_timeout
    → (c.every ≤ℤ pos 0) ⊎ (requested ≤ℤ c.every)
    → (collector_timeout c ≡ requested) × (asks_too_much c c.timeout ≡ false)
unfolding asks_too_much
collector_timeout_granted c requested e low high fits = (ground arith, ground arith)
