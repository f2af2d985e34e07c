-- ===== src/Tests/Entry.antt =====
-- Examples for the start of the agent: the configuration and the probes that come of it.
use prostometrics_agent.Base.{
  All, true, false, List, [], ◌∷◌, ◌++◌, none, some, Bytes, codes, ◌≡◌, refl, inl, arith, ◌===◌,
}
use prostometrics_agent.Base.Integers.{pos}
use prostometrics_agent.Config.Expand.{expand_text}
use prostometrics_agent.Config.Expand.References.{reference, expand_text_lem}
use prostometrics_agent.Base.Maps.{lookup}
use prostometrics_agent.Text.Expand.{is_shell_special_var, expand, expand_from, get_shell_name}
use prostometrics_agent.Config.Generic.{Durations}
use prostometrics_agent.Config.Instances.{mysql_label_from_dsn}
use prostometrics_agent.Config.Instances.Dsn.{IsHostByte, mysql_label_from_dsn_lem}
use prostometrics_agent.Config.Runtime.{ListConfig, FileConfig, resolve_runtime_config}
use prostometrics_agent.Config.Succeeds.{Succeeds}
use prostometrics_agent.Config.Source.{Machine, expand_home, user_config_path, default_config_paths}
use prostometrics_agent.Agent.Startup.{Detection, answered}
use prostometrics_agent.Entry.{Probe}
use prostometrics_agent.Entry.Start.Intervals.{RunsWell, running_lem}
use prostometrics_agent.Entry.Detect.{Host, absent, unopened}
use prostometrics_agent.Entry.Start.{running}
use prostometrics_agent.Entry.Start.Configured.{answer, AllRun, running-configured_probes}
use prostometrics_agent.Core.Pressure.{missing}
use prostometrics_agent.Nginx.Endpoint.{no_answer}
use prostometrics_agent.Floats.{whole_floats}
use prostometrics_agent.Labels.{
  Url, Urls, contains, instance_label_from_uri, label_from_socket_path,
}
use prostometrics_agent.Labels.Naming.{empty_label}
use prostometrics_agent.Nginx.Endpoint.{Endpoints}
use prostometrics_agent.Text.Address.{split_host}
use prostometrics_agent.Text.Case.{ascii_lowering}
use prostometrics_agent.Text.Paths.{base, ext, join_path}
use prostometrics_agent.Text.Search.{
  has_prefix, index, index_byte, index_where, last_index_byte, trim_right_of, trim_left_of,
  trim_suffix, split, join, after_index, is_one_of,
}
use prostometrics_agent.Text.Space.{is_ascii_space, trim_space}

-- A password with a parenthesis: its end is taken for a part of the address, and goes into the label.
leaked :
    mysql_label_from_dsn
      (codes "app" ++ b'(' ∷ (codes "word@tcp(10.0.0.1:3306" ++ b')' ∷ codes "/db"))
    ≡ codes "word@tcp(10.0.0.1"
unfolding mysql_label_from_dsn index_byte split_host last_index_byte trim_space has_prefix ◌===◌
leaked = refl

leak_bytes : All IsHostByte (codes "word@tcp(10.0.0.1")
unfolding is_ascii_space
leak_bytes = (
  ((omega arith, refl), omega arith, omega arith, omega arith, omega arith),
  (
    ((omega arith, refl), omega arith, omega arith, omega arith, omega arith),
    (
      ((omega arith, refl), omega arith, omega arith, omega arith, omega arith),
      (
        ((omega arith, refl), omega arith, omega arith, omega arith, omega arith),
        (
          ((omega arith, refl), omega arith, omega arith, omega arith, omega arith),
          (
            ((omega arith, refl), omega arith, omega arith, omega arith, omega arith),
            (
              ((omega arith, refl), omega arith, omega arith, omega arith, omega arith),
              (
                ((omega arith, refl), omega arith, omega arith, omega arith, omega arith),
                (
                  ((omega arith, refl), omega arith, omega arith, omega arith, omega arith),
                  (
                    ((omega arith, refl), omega arith, omega arith, omega arith, omega arith),
                    (
                      ((omega arith, refl), omega arith, omega arith, omega arith, omega arith),
                      (
                        ((omega arith, refl), omega arith, omega arith, omega arith, omega arith),
                        (
                          ((omega arith, refl), omega arith, omega arith, omega arith, omega arith),
                          (
                            (
                              (omega arith, refl),
                              omega arith,
                              omega arith,
                              omega arith,
                              omega arith,
                            ),
                            (
                              (
                                (omega arith, refl),
                                omega arith,
                                omega arith,
                                omega arith,
                                omega arith,
                              ),
                              (
                                (
                                  (omega arith, refl),
                                  omega arith,
                                  omega arith,
                                  omega arith,
                                  omega arith,
                                ),
                                (
                                  (
                                    (omega arith, refl),
                                    omega arith,
                                    omega arith,
                                    omega arith,
                                    omega arith,
                                  ),
                                  tt,
                                ),
                              ),
                            ),
                          ),
                        ),
                      ),
                    ),
                  ),
                ),
              ),
            ),
          ),
        ),
      ),
    ),
  ),
)

port_bytes : All IsHostByte (codes "3306")
unfolding is_ascii_space
port_bytes = (
  ((omega arith, refl), omega arith, omega arith, omega arith, omega arith),
  (
    ((omega arith, refl), omega arith, omega arith, omega arith, omega arith),
    (
      ((omega arith, refl), omega arith, omega arith, omega arith, omega arith),
      (((omega arith, refl), omega arith, omega arith, omega arith, omega arith), tt),
    ),
  ),
)

mysql_label_from_dsn_lem_example :
    (mysql_label_from_dsn (
        codes "app"
        ++ b'(' ∷ ((codes "word@tcp(10.0.0.1" ++ b':' ∷ codes "3306") ++ b')' ∷ codes "/db"))
      ≡ codes "word@tcp(10.0.0.1")
    × (mysql_label_from_dsn
          (codes "app" ++ b'(' ∷ (codes "word@tcp(10.0.0.1" ++ b')' ∷ codes "/db"))
        ≡ codes "word@tcp(10.0.0.1")
    × (mysql_label_from_dsn (codes "app" ++ b'(' ∷ b')' ∷ codes "/db") ≡ codes "mysql")
mysql_label_from_dsn_lem_example =
    mysql_label_from_dsn_lem (codes "app") (codes "word@tcp(10.0.0.1") (codes "3306") (codes "/db")
      (omega arith) (omega arith) (λ e. absurd (cc)) leak_bytes port_bytes

socket_label : label_from_socket_path (codes "/var/run/redis.sock") ≡ some (codes "redis")
unfolding label_from_socket_path ◌===◌ trim_space base trim_right_of trim_left_of after_index
    last_index_byte ext trim_suffix
socket_label = refl

abbrev port_only : Url
port_only = record { host = []; path = codes "/db"; query_host = codes ":5432" }

abbrev port_urls : Urls
port_urls = record { parse = λ s. some port_only }

full_url : contains (trim_space (codes "postgres:///db?host=:5432")) (codes "://") ≡ true
unfolding trim_space index
full_url = refl

blank_host : (trim_space port_only.host === []) ≡ true
unfolding trim_space ◌===◌
blank_host = refl

given_port : trim_space port_only.query_host ≡ b':' ∷ codes "5432"
unfolding trim_space
given_port = refl

empty_label_example :
    instance_label_from_uri port_urls (codes "postgres:///db?host=:5432") ≡ some []
empty_label_example =
    empty_label port_urls (codes "postgres:///db?host=:5432") (codes "5432") port_only full_url refl
      blank_host given_port (omega arith) (omega arith) (omega arith)

-- Each URL names the same socket.
abbrev one_url : Url
one_url = record { host = []; path = codes "/shop"; query_host = codes "/var/run/postgresql" }

abbrev some_urls : Urls
some_urls = record { parse = λ s. some one_url }

abbrev some_endpoints : Endpoints
some_endpoints = record {
  U = Bytes;
  parse = λ s. some s;
  host = λ u. u;
  path = λ u. codes "/stub_status";
  with_path = λ u p. u;
  spelled = λ u. u;
}

abbrev no_durations : Durations
no_durations = record { parse_duration = λ s. none }

abbrev as_given : List Bytes → List Bytes
as_given pairs = pairs

abbrev nothing_listed : ListConfig
nothing_listed = record { enabled = none; instances = [] }

abbrev with_postgres : FileConfig
with_postgres = record {
  env_files = [];
  workload = some (codes "shop");
  mongo = nothing_listed;
  nginx = record {
    enabled = some false;
    endpoint = [];
    access_log = [];
    access_log_enabled = none;
    time_samples_per_tick = pos 0;
    top_lists = false;
    site_host = [];
  };
  postgres = record {
    enabled = none;
    instances =
        record { connection = codes "postgres:///shop?host=/var/run/postgresql"; label = [] } ∷ [];
  };
  mysql = nothing_listed;
  redis = nothing_listed;
  rabbitmq = nothing_listed;
  prometheus = record { enabled = none; every = []; targets = [] };
  exec = record { enabled = none; every = []; commands = [] };
}

-- A machine on which nothing else is found.
abbrev bare_host : Host
bare_host = record {
  docker_socket = absent;
  pressure_file = λ path. missing;
  exists = λ path. false;
  systemctl = none;
  failed_units = λ path. none;
  get = λ endpoint. no_answer;
  cancelled = λ endpoint. false;
  log_file = λ path. unopened;
}

abbrev no_reason : Probe → Bytes
no_reason p = []

running-configured_probes_example :
    Succeeds
      (λ r.
        AllRun whole_floats ascii_lowering bare_host no_reason r
          (running ascii_lowering (answer whole_floats ascii_lowering bare_host no_reason) r))
      (resolve_runtime_config some_endpoints some_urls ascii_lowering no_durations as_given
        (some with_postgres)
        []
        false
        none)
running-configured_probes_example =
    running-configured_probes whole_floats ascii_lowering bare_host no_reason some_endpoints
      some_urls no_durations as_given (some with_postgres) [] false none

special_free : is_shell_special_var b'D' ≡ false
unfolding is_shell_special_var is_one_of
special_free = refl

abbrev secret_env : List (Bytes × Bytes)
secret_env = (codes "DB_PASS", codes "a$b") ∷ []

defined_pass : lookup (codes "DB_PASS") secret_env ≡ some (codes "a$b")
unfolding lookup ◌===◌
defined_pass = refl

expand_text_lem_example :
    expand_text
      (λ k. codes "other")
      secret_env
      (codes "app:" ++ reference (codes "DB_PASS") (codes "@db"))
    ≡ codes "app:" ++ (codes "a$b" ++ expand_text (λ k. codes "other") secret_env (codes "@db"))
expand_text_lem_example =
    expand_text_lem (λ k. codes "other") secret_env (codes "app:") (codes "DB_PASS") (codes "@db")
      (codes "a$b") (omega arith) (special_free, omega arith) (inl defined_pass)

-- A dollar sign of a value is no reference.
kept_dollar : expand_text (λ k. []) secret_env (codes "app:${DB_PASS}@db") ≡ codes "app:a$b@db"
unfolding expand_text expand expand_from get_shell_name index_byte index_where lookup ◌===◌
kept_dollar = refl

abbrev all_answer : Probe → Detection
all_answer p = answered true (codes "enabled in config")

running_lem_example : Succeeds (RunsWell ascii_lowering all_answer) (
    resolve_runtime_config some_endpoints some_urls ascii_lowering no_durations as_given
      (some with_postgres)
      []
      false
      none)
running_lem_example =
    running_lem some_endpoints some_urls ascii_lowering no_durations as_given (some with_postgres)
      [] false none all_answer

-- The search for a configuration on a machine of a user.
abbrev laptop : Machine
laptop = record {
  home = some (codes "/home/ann");
  getenv = λ name. [];
  exists = λ path. false;
  is_root = false;
}

search_paths :
    default_config_paths laptop
    ≡ codes "/home/ann/.config/prostometrics/agent.yaml"
      ∷ codes "/etc/prostometrics/agent.yaml"
      ∷ []
unfolding default_config_paths ◌===◌ user_config_path trim_space join_path join has_prefix split
search_paths = refl

home_path : expand_home (some (codes "/home/ann")) (codes "~/a//b/../c") ≡ codes "/home/ann/a/c"
unfolding expand_home ◌===◌ has_prefix join_path join split
home_path = refl
