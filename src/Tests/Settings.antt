-- ===== src/Tests/Settings.antt =====
-- Examples for cmd/prostometrics-agent/config.go.
use prostometrics_agent.Base.{
  All, false, List, [], ◌∷◌, ◌≡◌, ◌≢◌, none, refl, Option, some, Bytes, codes, ◌===◌, some_inj,
  arith,
}
use prostometrics_agent.Base.Integers.{pos}
use prostometrics_agent.Base.Maps.{lookup}
use prostometrics_agent.Config.EnvFiles.{EnvFile, contents, load_env_files}
use prostometrics_agent.Config.EnvFiles.Quoted.{IsNameByte}
use prostometrics_agent.Config.EnvFiles.Written.{
  written, last_value, IsWritable, load_env_files-written,
}
use prostometrics_agent.Text.Space.{trim_space}
use prostometrics_agent.Config.Instances.{Entry}
use prostometrics_agent.Prom.Scrape.{Target}
use prostometrics_agent.Text.Space.{is_ascii_space}

-- Every connection string is named alike.
abbrev named_host : Bytes → Option Bytes
named_host c = some (codes "host")

named_host-not_empty : (c l : Bytes) → named_host c ≡ some l → (l === []) ≡ false
unfolding ◌===◌
named_host-not_empty c l h = rw (← some_inj h) refl

abbrev listed : List Entry
listed = record { connection = codes " redis://a "; label = [] } ∷ []

abbrev scraped : List Target
scraped =
    record { name = []; url = codes "http://a"; metrics = []; labels = []; max_series = pos 0 }
    ∷ record {
      name = codes "b";
      url = codes "http://b";
      metrics = [];
      labels = [];
      max_series = pos 0;
    }
    ∷ []

token_bytes : All IsNameByte (codes "TOKEN")
unfolding is_ascii_space
token_bytes = (
  ((omega arith, refl), omega arith, omega arith),
  (
    ((omega arith, refl), omega arith, omega arith),
    (
      ((omega arith, refl), omega arith, omega arith),
      (
        ((omega arith, refl), omega arith, omega arith),
        (((omega arith, refl), omega arith, omega arith), tt),
      ),
    ),
  ),
)

abbrev token_file : Bytes → EnvFile
token_file path = contents (written ((codes "TOKEN", codes " a=\"b# ") ∷ []))

abbrev same_path : Bytes → Bytes
same_path path = path

token-IsWritable : All IsWritable ((codes "TOKEN", codes " a=\"b# ") ∷ [])
token-IsWritable = (
  (
    (λ e. absurd (cc)),
    token_bytes,
    (
      omega arith,
      (omega arith, (omega arith, (omega arith, (omega arith, (omega arith, (omega arith, tt)))))),
    ),
  ),
  tt,
)

env_path : trim_space (codes "/etc/agent.env") ≢ []
unfolding trim_space
env_path e = absurd (cc)

load_env_files-written_example :
    (env : List (Bytes × Bytes)) × (load_env_files same_path token_file
        (codes "/etc/agent.env" ∷ [])
      ≡ some env)
    × (lookup (codes "TOKEN") env
        ≡ last_value (codes "TOKEN") ((codes "TOKEN", codes " a=\"b# ") ∷ []) none)
load_env_files-written_example =
    load_env_files-written same_path token_file (codes "/etc/agent.env")
      ((codes "TOKEN", codes " a=\"b# ") ∷ []) (codes "TOKEN") env_path refl token-IsWritable
