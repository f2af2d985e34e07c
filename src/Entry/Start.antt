-- ===== src/Entry/Start.antt =====
-- `New` of the probes, and the collectors that the runner starts for a configuration: the core ones
-- of internal/agent/catalog and those of the probes that are detected.
pub mod Configured
pub mod Different
pub mod Intervals
pub mod Scheduled
use prostometrics_agent.Agent.{Collector, second}
use prostometrics_agent.Agent.Startup.{Detection, Creation, built, nil_collector, startup}
use prostometrics_agent.Agent.Startup as Startup
use prostometrics_agent.Base.{
  ℕ, ◌*◌, Bool, true, false, List, [], ◌∷◌, Option, none, some, Bytes, codes, map,
}
use prostometrics_agent.Base.Integers.{ℤ, pos}
use prostometrics_agent.Config.Runtime.{RuntimeConfig}
use prostometrics_agent.Docker.Round.{Settings, new_cpu_collector}
use prostometrics_agent.Entry.{
  Probe, docker, pressure, kernel, systemd, mongo, postgres, mysql, redis, rabbitmq, nginx,
  access_log, prometheus, exec, all_probes, core_collectors,
}
use prostometrics_agent.Exec.Budget.{collector_budget}
use prostometrics_agent.Prom.Scrape.{timeout}
use prostometrics_agent.Text.Case.{Lowering}

abbrev pub every_seconds : Bytes → ℕ → Collector
every_seconds id n = record { id = id; every = pos (n * second); timeout = none }

abbrev pub probe_id : Probe → Bytes
probe_id docker = codes "docker"
probe_id pressure = codes "pressure"
probe_id kernel = codes "kernel"
probe_id systemd = codes "systemd"
probe_id (mongo is) = codes "mongo"
probe_id (postgres is) = codes "postgres"
probe_id (mysql is) = codes "mysql"
probe_id (redis is) = codes "redis"
probe_id (rabbitmq is) = codes "rabbitmq"
probe_id (nginx endpoint) = codes "nginx"
probe_id (access_log path samples top site) = codes "nginx.accesslog"
probe_id (prometheus ts every) = codes "prometheus"
probe_id (exec cs every) = codes "exec"

abbrev pub docker_created : Option Settings → Creation
docker_created none = nil_collector
docker_created (some s) =
    built (record { id = codes "docker.cpu"; every = s.every; timeout = none })

module _ (lw : Lowering) where
  -- `New`
  unfoldable pub create : Probe → Creation
  create docker = docker_created (
      new_cpu_collector lw (codes "/var/run/docker.sock") (pos (10 * second)) (codes "service")
        (pos 200) (pos 8) (pos (5 * second)))
  create pressure = built (every_seconds (codes "core.pressure") 10)
  create kernel = built (every_seconds (codes "core.kernel") 60)
  create systemd = built (every_seconds (codes "systemd") 60)
  create (mongo is) = built (every_seconds (codes "mongo") 10)
  create (postgres is) = built (every_seconds (codes "postgres") 10)
  create (mysql is) = built (every_seconds (codes "mysql") 10)
  create (redis is) = built (every_seconds (codes "redis") 10)
  create (rabbitmq is) = built (every_seconds (codes "rabbitmq") 30)
  create (nginx endpoint) = built (every_seconds (codes "nginx") 10)
  create (access_log path samples top site) = built (every_seconds (codes "nginx.accesslog") 10)
  create (prometheus ts every) =
      built (record { id = codes "prometheus"; every = every; timeout = some (pos (timeout ts)) })
  create (exec cs every) =
      built
        (record { id = codes "exec"; every = every; timeout = some (pos (collector_budget cs)) })

  -- A probe as the runner meets it, by what its `Detect` does.
  abbrev pub as_probe : (Probe → Detection) → Probe → Option Startup.Probe
  as_probe detection p = some (record { id = probe_id p; detect = detection p; new = create p })

  abbrev pub core_collector : Bytes × ℕ → Option Collector
  core_collector (id, n) = some (every_seconds id n)

  -- The collectors that run.
  unfoldable pub running : (Probe → Detection) → RuntimeConfig → List Collector
  unfolding startup all_probes
  running detection r =
      startup (map core_collector core_collectors) (map (as_probe detection) (all_probes r))
