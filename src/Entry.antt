-- ===== src/Entry.antt =====
-- cmd/prostometrics-agent/main.go, internal/agent/catalog/catalog.go, and the probes of
-- internal/collectors that are built from a list: which host is reported to, and which probes are
-- handed to the runner.
pub mod Detect
pub mod Joined
pub mod Start
pub mod Probes
use prostometrics_agent.Base.{
  ℕ, Bool, true, false, List, [], ◌∷◌, ◌++◌, Option, none, some, Bytes, codes, if◌then◌else◌, ◌===◌,
}
use prostometrics_agent.Base.Integers.{ℤ, pos}
use prostometrics_agent.Config.Instances.{Instance}
use prostometrics_agent.Config.Runtime.{RuntimeConfig, NginxRuntime, Listed}
use prostometrics_agent.Exec.{Command}
use prostometrics_agent.Prom.Scrape.{Target}
use prostometrics_agent.Text.Space.{trim_space}

abbrev ingest_host : Bytes
ingest_host = codes "prostometrics.ru"

pub record StringFlag : Type 0 where
  pub value : Bytes
  pub is_set : Bool

-- `Set`
abbrev pub set_flag : StringFlag → Bytes → StringFlag
set_flag f v = record { value = v; is_set = true }

-- The host that `main` reports to, by the environment.
unfoldable pub endpoint_host : (Bytes → Bytes) → Bytes
endpoint_host getenv =
    let endpoint = trim_space (getenv (codes "PROSTOMETRICS_ENDPOINT")) in
    let host = trim_space (getenv (codes "PROSTOMETRICS_HOST")) in
    if endpoint === [] then (if host === [] then ingest_host else host) else endpoint

-- What `prostometrics.Init` returns.
pub data Init : Type 0 where
  initialized missing_api_key other_error : Init

-- Whether `initClient` returns no error.
unfoldable pub init_client : Bytes → Init → Bool
init_client api_key initialized = if api_key === [] then false else true
init_client api_key missing_api_key = false
init_client api_key other_error = false

-- The probes, with what they are built from.
pub data Probe : Type 0 where
  docker pressure kernel systemd : Probe
  mongo postgres mysql redis rabbitmq : List Instance → Probe
  nginx : Bytes → Probe
  access_log : Bytes → ℤ → Bool → Bytes → Probe
  prometheus : List Target → ℤ → Probe
  exec : List Command → ℤ → Probe

-- `IntegrationProbes`
abbrev pub integration_probes : List Probe
integration_probes = docker ∷ pressure ∷ kernel ∷ systemd ∷ []

-- `CoreCollectors`, by their names and the seconds between two rounds.
abbrev pub core_collectors : List (Bytes × ℕ)
core_collectors =
    (codes "core.mem", 10)
    ∷ (codes "core.net", 10)
    ∷ (codes "core.diskio", 10)
    ∷ (codes "core.cpu_usage", 10)
    ∷ (codes "core.loadavg", 10)
    ∷ (codes "core.heartbeat", 10)
    ∷ (codes "core.uptime", 60)
    ∷ (codes "core.fs", 60)
    ∷ []

abbrev pub when : Bool → Probe → List Probe
when on probe = if on then probe ∷ [] else []

unfoldable pub configured_probes : RuntimeConfig → List Probe
configured_probes r =
    when r.mongo.enabled (mongo r.mongo.items)
    ++ when r.nginx.enabled (nginx r.nginx.endpoint)
    ++ when r.nginx.access_log_enabled (
        access_log r.nginx.access_log_path r.nginx.time_samples r.nginx.top_lists r.nginx.site_host)
    ++ when r.postgres.enabled (postgres r.postgres.items)
    ++ when r.mysql.enabled (mysql r.mysql.items)
    ++ when r.redis.enabled (redis r.redis.items)
    ++ when r.rabbitmq.enabled (rabbitmq r.rabbitmq.items)
    ++ when r.prometheus.enabled (prometheus r.prometheus.items r.prometheus.every)
    ++ when r.exec.enabled (exec r.exec.items r.exec.every)

-- The probes that `main` hands to the runner.
unfoldable pub all_probes : RuntimeConfig → List Probe
unfolding configured_probes
all_probes r = integration_probes ++ configured_probes r

-- `Detect` of a probe that holds a list.
abbrev pub detect_listed : {T : Type 0} → List T → Bool
detect_listed [] = false
detect_listed (t ∷ ts) = true
