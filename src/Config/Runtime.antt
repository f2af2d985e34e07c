-- ===== src/Config/Runtime.antt =====
-- cmd/prostometrics-agent/config.go: the configuration file as it is decoded, and
-- `resolveRuntimeConfig`, which composes the parts.
pub mod Built
pub mod Filled
pub mod Listing
pub mod Sound
use prostometrics_agent.Base.{
  ℕ, Bool, true, false, not, ◌&&◌, List, [], ◌∷◌, ◌++◌, Option, none, some, ◌>>=◌, Bytes, codes,
  if◌then◌else◌, ◌===◌, length, option_or,
}
use prostometrics_agent.Base.Integers.{ℤ, pos}
use prostometrics_agent.Config.Enabled.{Verdict, off, on, nothing_configured, integration_enabled}
use prostometrics_agent.Config.Generic.{
  Durations, CommandConfig, parse_every, resolve_targets, resolve_commands,
}
use prostometrics_agent.Config.Instances.{
  Entry, Instance, Resolved, refused, resolved, resolve_instances, mysql_label_from_dsn,
}
use prostometrics_agent.Config.Workload.{resolve_workload}
use prostometrics_agent.Exec.{Command}
use prostometrics_agent.Labels.{Urls, instance_label_from_uri}
use prostometrics_agent.Nginx.AccessLog.New.{default_access_log_path}
use prostometrics_agent.Nginx.Endpoint.{Endpoints, normalize_endpoint, validate_endpoint}
use prostometrics_agent.Prom.Scrape.{Target}
use prostometrics_agent.Text.Case.{Lowering}
use prostometrics_agent.Text.Space.{trim_space}

-- `uriListConfig`, `mysqlConfig` and `rabbitmqConfig`, which differ in the name of the string.
pub record ListConfig : Type 0 where
  pub enabled : Option Bool
  pub instances : List Entry

pub record PrometheusConfig : Type 0 where
  pub enabled : Option Bool
  pub every : Bytes
  pub targets : List Target

pub record ExecConfig : Type 0 where
  pub enabled : Option Bool
  pub every : Bytes
  pub commands : List CommandConfig

pub record NginxConfig : Type 0 where
  pub enabled : Option Bool
  pub endpoint : Bytes
  pub access_log : Bytes
  pub access_log_enabled : Option Bool
  pub time_samples_per_tick : ℤ
  pub top_lists : Bool
  pub site_host : Bytes

pub record FileConfig : Type 0 where
  pub env_files : List Bytes
  pub workload : Option Bytes
  pub mongo : ListConfig
  pub nginx : NginxConfig
  pub postgres : ListConfig
  pub mysql : ListConfig
  pub redis : ListConfig
  pub rabbitmq : ListConfig
  pub prometheus : PrometheusConfig
  pub exec : ExecConfig

-- The `Nginx…` fields of `runtimeConfig`.
pub record NginxRuntime : Type 0 where
  pub enabled : Bool
  pub endpoint : Bytes
  pub access_log_enabled : Bool
  pub access_log_path : Bytes
  pub time_samples : ℤ
  pub top_lists : Bool
  pub site_host : Bytes

-- The enabled flag and the instances of an integration, and those of the two generic ones with the
-- time between two rounds.
pub record Listed (T : Type 0) : Type 0 where
  pub enabled : Bool
  pub every : ℤ
  pub items : List T

pub record RuntimeConfig : Type 0 where
  pub workload : Bytes
  pub mongo : Listed Instance
  pub nginx : NginxRuntime
  pub postgres : Listed Instance
  pub mysql : Listed Instance
  pub redis : Listed Instance
  pub rabbitmq : Listed Instance
  pub prometheus : Listed Target
  pub exec : Listed Command

abbrev pub turned_off : {T : Type 0} → Listed T
turned_off = record { enabled = false; every = pos 0; items = [] }

abbrev pub no_nginx : NginxRuntime
no_nginx = record {
  enabled = false;
  endpoint = [];
  access_log_enabled = false;
  access_log_path = [];
  time_samples = pos 0;
  top_lists = false;
  site_host = [];
}

abbrev pub log_path : Bytes → Bytes
log_path path = if trim_space path === [] then default_access_log_path else trim_space path

abbrev pub with_access_log : NginxConfig → NginxRuntime → NginxRuntime
with_access_log c n =
    if option_or c.access_log_enabled true
    then record n {
      access_log_enabled = true;
      access_log_path = log_path c.access_log;
      time_samples = c.time_samples_per_tick;
      top_lists = c.top_lists;
      site_host = trim_space c.site_host;
    }
    else n

module _ (e : Endpoints) where
  abbrev pub with_endpoint : NginxConfig → Bytes → Option NginxRuntime
  with_endpoint c endpoint =
      some (with_access_log c (record no_nginx { enabled = true; endpoint = endpoint }))

  abbrev pub checked_endpoint : NginxConfig → Bytes → Option NginxRuntime
  checked_endpoint c endpoint =
      if validate_endpoint e endpoint then with_endpoint c endpoint else none

  -- An error is none.
  unfoldable pub resolve_nginx : NginxConfig → Option NginxRuntime
  resolve_nginx c =
      if not (option_or c.enabled true)
      then some no_nginx
      else if trim_space c.endpoint === []
      then with_endpoint c c.endpoint
      else checked_endpoint c (normalize_endpoint e c.endpoint)

abbrev pub listed_of : Resolved → Option (Listed Instance)
listed_of refused = none
listed_of (resolved enabled items) =
    some (record { enabled = enabled; every = pos 0; items = items })

unfoldable pub resolve_list : (Bytes → Option Bytes) → ListConfig → Option (Listed Instance)
resolve_list derive c = listed_of (resolve_instances derive c.enabled c.instances)

module _ {T : Type 0} where
  abbrev with_items : Option ℤ → Option (List T) → Option (Listed T)
  with_items none items = none
  with_items (some every) none = none
  with_items (some every) (some items) =
      some (record { enabled = true; every = every; items = items })

  abbrev pub decided : Verdict → Option ℤ → Option (List T) → Option (Listed T)
  decided off every items = some turned_off
  decided nothing_configured every items = none
  decided on every items = with_items every items

abbrev pub prometheus_every : ℤ
prometheus_every = pos 30_000_000_000

abbrev pub exec_every : ℤ
exec_every = pos 60_000_000_000

module _ (e : Endpoints) (urls : Urls) (lw : Lowering) (du : Durations)
    (sort : List Bytes → List Bytes) where
  abbrev pub uri_label : Bytes → Option Bytes
  uri_label = instance_label_from_uri urls

  abbrev pub mysql_label : Bytes → Option Bytes
  mysql_label dsn = some (mysql_label_from_dsn dsn)

  unfoldable pub resolve_prometheus : PrometheusConfig → Option (Listed Target)
  resolve_prometheus c =
      decided (integration_enabled c.enabled (length c.targets))
        (parse_every du c.every prometheus_every) (resolve_targets uri_label [] c.targets)

  unfoldable pub resolve_exec : ExecConfig → Option (Listed Command)
  resolve_exec c =
      decided (integration_enabled c.enabled (length c.commands))
        (parse_every du c.every exec_every) (resolve_commands lw du sort c.commands)

  -- What is resolved without a configuration file.
  abbrev pub without_file : Bytes → RuntimeConfig
  without_file workload = record {
    workload = workload;
    mongo = turned_off;
    nginx = record no_nginx {
      enabled = true;
      access_log_enabled = true;
      access_log_path = default_access_log_path;
    };
    postgres = turned_off;
    mysql = turned_off;
    redis = turned_off;
    rabbitmq = turned_off;
    prometheus = turned_off;
    exec = turned_off;
  }

  abbrev pub with_file : Bytes → FileConfig → Option RuntimeConfig
  with_file workload cfg = do
    nginx ← resolve_nginx e cfg.nginx
    mongo ← resolve_list uri_label cfg.mongo
    postgres ← resolve_list uri_label cfg.postgres
    redis ← resolve_list uri_label cfg.redis
    rabbitmq ← resolve_list uri_label cfg.rabbitmq
    mysql ← resolve_list mysql_label cfg.mysql
    prometheus ← resolve_prometheus cfg.prometheus
    exec ← resolve_exec cfg.exec
    some (record {
      workload = workload;
      mongo = mongo;
      nginx = nginx;
      postgres = postgres;
      mysql = mysql;
      redis = redis;
      rabbitmq = rabbitmq;
      prometheus = prometheus;
      exec = exec;
    })

  abbrev pub with_workload : Option FileConfig → Bytes → Option RuntimeConfig
  with_workload none workload = some (without_file workload)
  with_workload (some cfg) workload = with_file workload cfg

  abbrev pub file_workload : Option FileConfig → Option Bytes
  file_workload none = none
  file_workload (some cfg) = cfg.workload

  -- The flag with whether it is set, and the name of the host; an error is none.
  unfoldable pub resolve_runtime_config :
      Option FileConfig → Bytes → Bool → Option Bytes → Option RuntimeConfig
  resolve_runtime_config cfg flag is_set host =
      resolve_workload (file_workload cfg) flag is_set host >>= with_workload cfg
