-- ===== src/Config/EnvFiles.antt =====
-- cmd/prostometrics-agent/config.go: `loadEnvFiles`. The files are given by what reading them gives,
-- and the expansion of the home directory by a function.
pub mod Quoted
pub mod Written
use prostometrics_agent.Base.{
  ℕ, zero, suc, ◌-◌, Bool, true, false, ◌&&◌, ◌||◌, List, [], ◌∷◌, Option, none, some, Bytes, codes,
  if◌then◌else◌, ◌===◌, ◌==◌, leb, length, take, drop, get_or,
}
use prostometrics_agent.Base.Maps.{insert}
use prostometrics_agent.Text.Search.{has_prefix, index_byte, split}
use prostometrics_agent.Text.Space.{trim_space}

-- A line that is passed over, one that is an error, and a definition.
pub data EnvLine : Type 0 where
  skipped malformed : EnvLine
  defined : Bytes → Bytes → EnvLine

-- "export " and "export\t" both have seven bytes.
unfoldable pub drop_export : Bytes → Bytes
drop_export line =
    if has_prefix line (codes "export ") || has_prefix line (codes "export\t")
    then trim_space (drop 7 line)
    else line

abbrev quoted_by : ℕ → Bytes → Bool
quoted_by q val = (get_or val 0 0 == q) && (get_or val (length val - 1) 0 == q)

unfoldable pub unquote : Bytes → Bytes
unquote val =
    if leb 2 (length val) && (quoted_by 34 val || quoted_by 39 val)
    then take (length val - 2) (drop 1 val)
    else val

abbrev define : Bytes → Bytes → EnvLine
define key val = if key === [] then malformed else defined key (unquote val)

-- The sign of equality must stand behind something.
abbrev define_at : Option ℕ → Bytes → EnvLine
define_at none line = malformed
define_at (some zero) line = malformed
define_at (some (suc i)) line =
    define (trim_space (take (suc i) line)) (trim_space (drop (suc (suc i)) line))

abbrev define_line : Bytes → EnvLine
define_line line = define_at (index_byte line b'=') line

unfoldable pub read_env_line : Bytes → EnvLine
read_env_line raw =
    let line = trim_space raw in
    let read = define_line (drop_export line) in
    if (line === []) || has_prefix line (codes "#") then skipped else read

abbrev add_line : EnvLine → List (Bytes × Bytes) → Option (List (Bytes × Bytes))
add_line skipped env = some env
add_line malformed env = none
add_line (defined key val) env = some (insert key val env)

unfoldable pub read_env_lines : List Bytes → List (Bytes × Bytes) → Option (List (Bytes × Bytes))
read_env_lines [] env = some env
read_env_lines (line ∷ lines) env = elim (add_line (read_env_line line) env) [
  | none ↦ none
  | some more ↦ read_env_lines lines more
]

-- A file that is not there is passed over; any other failure is an error.
pub data EnvFile : Type 0 where
  missing unreadable : EnvFile
  contents : Bytes → EnvFile

abbrev read_env_file : EnvFile → List (Bytes × Bytes) → Option (List (Bytes × Bytes))
read_env_file missing env = some env
read_env_file unreadable env = none
read_env_file (contents data') env = read_env_lines (split data' 10) env

module _ (expand_home : Bytes → Bytes) (read_file : Bytes → EnvFile) where
  abbrev read_path : Bytes → List (Bytes × Bytes) → Option (List (Bytes × Bytes))
  read_path path env =
      let read = read_env_file (read_file path) env in if path === [] then some env else read

  unfoldable pub load_from : List Bytes → List (Bytes × Bytes) → Option (List (Bytes × Bytes))
  load_from [] env = some env
  load_from (raw ∷ paths) env = elim (read_path (expand_home (trim_space raw)) env) [
    | none ↦ none
    | some more ↦ load_from paths more
  ]

  -- The definitions, or the error; a nil map and an empty one read alike.
  unfoldable pub load_env_files : List Bytes → Option (List (Bytes × Bytes))
  load_env_files paths = load_from paths []
