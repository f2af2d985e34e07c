-- ===== src/Tests/Runner.antt =====
-- Examples for internal/agent.
use prostometrics_agent.Agent.{Collector, collect_timeout, max_collect_timeout, core_fast_every}
use prostometrics_agent.Agent.Limiter.{new_log_limiter, allowed_times, Spaced, allowed_times-Spaced}
use prostometrics_agent.Agent.Pool.{
  idle, waiting, stopped, collecting, started, Reach, here, next, tick, acquire, Pool,
}
use prostometrics_agent.Agent.Pool.Safety.{in_flight, concurrency_bounded}
use prostometrics_agent.Agent.Pool.Shutdown.{steps, shutdown_lem}
use prostometrics_agent.Agent.Startup.{
  Any, Offers, Probe, answered, built, startup, startup_lem, detect_panicked, new_panicked,
}
use prostometrics_agent.Agent.Timeout.{collector_timeout, ticker_every, collector_timeout_bounds}
use prostometrics_agent.Agent.{max_concurrency}
use prostometrics_agent.Base.Integers.{pos, ◌≤ℤ◌, ◌<ℤ◌}
use prostometrics_agent.Base.Maps.{lookup}
use prostometrics_agent.Base.{
  ℕ, ◌≤◌, ◌<◌, ◌+◌, true, false, [], ◌∷◌, ◌≡◌, ◌↔◌, ◌⊎◌, inl, inr, refl, some, none, arith, codes,
  Option, List, Bytes, set, All, ◌*◌,
}

-- A collector that asks for 20 seconds every 30.
abbrev scraper : Collector
scraper = record {
  id = codes "prometheus";
  every = pos 30_000_000_000;
  timeout = some (pos 20_000_000_000);
}

collector_timeout_bounds_example :
    (((pos 0 <ℤ pos 30_000_000_000)
        × (ticker_every scraper ≡ pos 30_000_000_000)
        × (collector_timeout scraper ≤ℤ pos 30_000_000_000))
      ⊎ ((pos 30_000_000_000 ≤ℤ pos 0) × (ticker_every scraper ≡ core_fast_every)))
    × (collector_timeout scraper ≤ℤ max_collect_timeout)
    × (pos 0 <ℤ collector_timeout scraper)
    × ((collector_timeout scraper ≡ pos 30_000_000_000)
        ⊎ (collect_timeout ≤ℤ collector_timeout scraper))
collector_timeout_bounds_example = collector_timeout_bounds scraper

allowed_times-Spaced_example : Spaced 60 none (
    allowed_times
      (codes "exec")
      (new_log_limiter 60)
      ((codes "exec", 5) ∷ (codes "redis", 6) ∷ (codes "exec", 30) ∷ (codes "exec", 70) ∷ []))
allowed_times-Spaced_example =
    allowed_times-Spaced (codes "exec") 60
      ((codes "exec", 5) ∷ (codes "redis", 6) ∷ (codes "exec", 30) ∷ (codes "exec", 70) ∷ [])

allowed_times_run :
    allowed_times
      (codes "exec")
      (new_log_limiter 60)
      ((codes "exec", 5) ∷ (codes "redis", 6) ∷ (codes "exec", 30) ∷ (codes "exec", 70) ∷ [])
    ≡ 5 ∷ 70 ∷ []
unfolding allowed_times new_log_limiter prostometrics_agent.Base.Maps.lookup
    prostometrics_agent.Base.Maps.insert prostometrics_agent.Base.◌===◌
allowed_times_run = refl

abbrev docker_probe : Probe
docker_probe = record { id = codes "docker"; detect = answered true []; new = built scraper }

abbrev broken_probe : Probe
broken_probe = record { id = codes "systemd"; detect = detect_panicked []; new = new_panicked }

abbrev probes : List (Option Probe)
probes = none ∷ some broken_probe ∷ some docker_probe ∷ []

startup_lem_example :
    Any (λ d. d ≡ scraper) (startup (none ∷ []) probes)
    ↔ (Any (λ o. o ≡ some scraper) (none ∷ []) ⊎ Any (Offers scraper) probes)
startup_lem_example = startup_lem scraper (none ∷ []) probes

abbrev running : Pool
running = record { phases = collecting ∷ idle ∷ []; sem = 1; cancelled = false; closed = false }

running_reached : Reach (started (idle ∷ idle ∷ [])) running
running_reached = next (next here (tick 0 refl)) (acquire 0 refl (omega arith))

concurrency_bounded_example :
    (1 ≡ in_flight (collecting ∷ idle ∷ []))
    × (in_flight (collecting ∷ idle ∷ []) ≤ max_concurrency)
    × ((◌≡◌ {A = prostometrics_agent.Base.Bool} false false)
        ⊎ (in_flight (collecting ∷ idle ∷ []) ≡ 0))
concurrency_bounded_example =
    concurrency_bounded {phases = idle ∷ idle ∷ []} {p = running} (refl, (refl, tt)) running_reached

abbrev half_busy : Pool
half_busy = record {
  phases = collecting ∷ waiting ∷ idle ∷ [];
  sem = 1;
  cancelled = false;
  closed = false;
}

shutdown_lem_example :
    (q : Pool) × (r : Reach half_busy q) × (q.closed ≡ true)
    × All (λ phase. phase ≡ stopped) q.phases
    × (steps r ≤ 2 * 3 + 2)
shutdown_lem_example = shutdown_lem half_busy
