-- ===== src/Config/Source.antt =====
-- cmd/prostometrics-agent/config.go: which file is read, `expandHome`, and `loadFileConfig`. The
-- environment, the user's home, the files and the YAML parser are given.
use prostometrics_agent.Base.{
  Bool, true, false, not, List, [], ◌∷◌, ◌++◌, Option, none, some, Bytes, codes, if◌then◌else◌,
  ◌===◌, drop,
}
use prostometrics_agent.Config.EnvFiles.{EnvFile, missing, unreadable, contents, load_env_files}
use prostometrics_agent.Text.Paths.{join_path}
use prostometrics_agent.Text.Search.{has_prefix}
use prostometrics_agent.Text.Space.{trim_space}

-- The host: `os.UserHomeDir`, none where it is an error, `os.Getenv`, whether a file exists, and
-- whether the effective user is root.
pub record Machine : Type 0 where
  pub home : Option Bytes
  pub getenv : Bytes → Bytes
  pub exists : Bytes → Bool
  pub is_root : Bool

abbrev pub default_config_name : Bytes
default_config_name = codes "agent.yaml"

abbrev home_or : Option Bytes → Bytes → (Bytes → Bytes) → Bytes
home_or none path f = path
home_or (some home) path f = if home === [] then path else f home

unfoldable pub expand_home : Option Bytes → Bytes → Bytes
expand_home home path =
    if path === []
    then path
    else if path === codes "~"
    then home_or home path (λ h. h)
    else if has_prefix path (codes "~/")
    then home_or home path (λ h. join_path (h ∷ drop 2 path ∷ []))
    else path

abbrev under_home : Option Bytes → Bytes
under_home none = []
under_home (some home) =
    if trim_space home === []
    then []
    else join_path (home ∷ codes ".config" ∷ codes "prostometrics" ∷ default_config_name ∷ [])

unfoldable pub user_config_path : Machine → Bytes
user_config_path m =
    let xdg = trim_space (m.getenv (codes "XDG_CONFIG_HOME")) in
    if xdg === []
    then under_home m.home
    else join_path (xdg ∷ codes "prostometrics" ∷ default_config_name ∷ [])

abbrev system_path : Bytes
system_path = codes "/etc/prostometrics/agent.yaml"

abbrev unless_empty : Bytes → List Bytes
unless_empty path = if path === [] then [] else path ∷ []

unfoldable pub default_config_paths : Machine → List Bytes
default_config_paths m =
    if m.is_root
    then system_path ∷ unless_empty (user_config_path m)
    else unless_empty (user_config_path m) ++ system_path ∷ []

unfoldable pub file_exists : Machine → Bytes → Bool
file_exists m path = if trim_space path === [] then false else m.exists path

pub record ConfigSource : Type 0 where
  pub path : Bytes
  pub explicit : Bool

unfoldable pub first_existing : Machine → List Bytes → ConfigSource
first_existing m [] = record { path = []; explicit = false }
first_existing m (path ∷ paths) =
    let rest = first_existing m paths in
    if file_exists m path then record { path = path; explicit = false } else rest

abbrev asked_for : Machine → Bytes → ConfigSource
asked_for m path = record { path = expand_home m.home path; explicit = true }

-- The source, for the value of the flag; the search paths are only logged.
unfoldable pub resolve_config_source : Machine → Bytes → ConfigSource
resolve_config_source m flag =
    let flag_path = trim_space flag in
    let env_path = trim_space (m.getenv (codes "PROSTOMETRICS_CONFIG")) in
    if not (flag_path === [])
    then asked_for m flag_path
    else if not (env_path === [])
    then asked_for m env_path
    else first_existing m (default_config_paths m)

-- No configuration, an error, and a configuration.
pub data Loaded (C : Type 0) : Type 0 where
  no_config load_failed : Loaded C
  loaded : C → Loaded C

-- `yaml.Unmarshal` into a configuration, none where it is an error; the `env_files` of one; and
-- `expandEnvStringsWithMap` over one.
pub record Format : Type 1 where
  pub C : Type 0
  pub empty : C
  pub unmarshal : Bytes → Option C
  pub env_files : C → List Bytes
  pub expand : List (Bytes × Bytes) → C → C

module _ (f : Format) (m : Machine) (read_file : Bytes → EnvFile) where
  open f use {C, empty, unmarshal, env_files, expand}

  abbrev expanded : C → Option (List (Bytes × Bytes)) → Loaded C
  expanded cfg none = load_failed
  expanded cfg (some env) = loaded (expand env cfg)

  abbrev parsed : Option C → Loaded C
  parsed none = load_failed
  parsed (some cfg) = expanded cfg (load_env_files (expand_home m.home) read_file (env_files cfg))

  abbrev load_read : Bool → EnvFile → Loaded C
  load_read explicit missing = if explicit then load_failed else no_config
  load_read explicit unreadable = load_failed
  load_read explicit (contents text) =
      if trim_space text === [] then loaded empty else parsed (unmarshal text)

  unfoldable pub load_file_config : ConfigSource → Loaded C
  load_file_config s =
      if trim_space s.path === [] then no_config else load_read s.explicit (read_file s.path)
