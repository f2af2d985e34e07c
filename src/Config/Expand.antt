-- ===== src/Config/Expand.antt =====
-- cmd/prostometrics-agent/config.go: `expandEnvStringsWithMap`, over the fields of the decoded file,
-- which the code visits by reflection.
pub mod References
use mathlib.Core.Option
use prostometrics_agent.Base.{List, [], ◌∷◌, Option, none, some, Bytes, map}
use prostometrics_agent.Base.Maps.{lookup}
use prostometrics_agent.Config.Generic.{CommandConfig}
use prostometrics_agent.Config.Instances.{Entry}
use prostometrics_agent.Config.Runtime.{
  FileConfig, ListConfig, NginxConfig, PrometheusConfig, ExecConfig,
}
use prostometrics_agent.Config.Source.{Format}
use prostometrics_agent.Prom.Scrape.{Target}
use prostometrics_agent.Text.Expand.{expand}

-- The value of an environment file comes before that of the process.
abbrev pub or_getenv : (Bytes → Bytes) → Bytes → Option Bytes → Bytes
or_getenv getenv key none = getenv key
or_getenv getenv key (some v) = v

abbrev pub value_of : (Bytes → Bytes) → List (Bytes × Bytes) → Bytes → Bytes
value_of getenv env key = or_getenv getenv key (lookup key env)

unfoldable pub expand_text : (Bytes → Bytes) → List (Bytes × Bytes) → Bytes → Bytes
expand_text getenv env text = expand (value_of getenv env) text

module _ (x : Bytes → Bytes) where
  abbrev expand_entry : Entry → Entry
  expand_entry e = record { connection = x e.connection; label = x e.label }

  abbrev expand_list : ListConfig → ListConfig
  expand_list c = record { enabled = c.enabled; instances = map expand_entry c.instances }

  abbrev expand_target : Target → Target
  expand_target t = record {
    name = x t.name;
    url = x t.url;
    metrics = map x t.metrics;
    labels = map x t.labels;
    max_series = t.max_series;
  }

  -- Of a map the values are expanded, and not the keys.
  abbrev expand_pair : Bytes × Bytes → Bytes × Bytes
  expand_pair (name, v) = (name, x v)

  abbrev expand_command : CommandConfig → CommandConfig
  expand_command c = record {
    metric = x c.metric;
    command = x c.command;
    args = map x c.args;
    kind = x c.kind;
    labels = map expand_pair c.labels;
    timeout = x c.timeout;
  }

  abbrev expand_nginx : NginxConfig → NginxConfig
  expand_nginx c = record c {
    endpoint = x c.endpoint;
    access_log = x c.access_log;
    site_host = x c.site_host;
  }

  abbrev expand_prometheus : PrometheusConfig → PrometheusConfig
  expand_prometheus c = record {
    enabled = c.enabled;
    every = x c.every;
    targets = map expand_target c.targets;
  }

  abbrev expand_exec : ExecConfig → ExecConfig
  expand_exec c = record {
    enabled = c.enabled;
    every = x c.every;
    commands = map expand_command c.commands;
  }

  unfoldable pub expand_config : FileConfig → FileConfig
  expand_config c = record {
    env_files = map x c.env_files;
    workload = Option.map x c.workload;
    mongo = expand_list c.mongo;
    nginx = expand_nginx c.nginx;
    postgres = expand_list c.postgres;
    mysql = expand_list c.mysql;
    redis = expand_list c.redis;
    rabbitmq = expand_list c.rabbitmq;
    prometheus = expand_prometheus c.prometheus;
    exec = expand_exec c.exec;
  }

-- The file as `loadFileConfig` treats it, with the environment of the process, an empty configuration
-- and `yaml.Unmarshal`.
abbrev pub yaml_format : (Bytes → Bytes) → FileConfig → (Bytes → Option FileConfig) → Format
yaml_format getenv empty unmarshal = record {
  C = FileConfig;
  empty = empty;
  unmarshal = unmarshal;
  env_files = λ c. c.env_files;
  expand = λ env c. expand_config (expand_text getenv env) c;
}
