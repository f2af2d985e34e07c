-- ===== src/Config/Generic.antt =====
-- cmd/prostometrics-agent/config.go: the Prometheus targets and the commands of
-- `resolveGenericIntegrations`, and `labelPairs` up to its sort. How a label is derived from an
-- address, and `time.ParseDuration`, are given.
pub mod Commands
pub mod Distinct
use prostometrics_agent.Base.{
  ℕ, Bool, true, false, ◌||◌, List, [], ◌∷◌, ◌++◌, Option, none, some, Bytes, codes, if◌then◌else◌,
  ◌===◌, elem_bytes,
}
use prostometrics_agent.Base.Integers.{ℤ, pos, ltb_ℤ}
use prostometrics_agent.Exec.{Command}
use prostometrics_agent.Prom.Scrape.{Target}
use prostometrics_agent.Text.Case.{Lowering}
use prostometrics_agent.Text.Space.{trim_space}

-- `time.ParseDuration`, in nanoseconds; an error is none.
pub record Durations : Type 0 where
  pub parse_duration : Bytes → Option ℤ

abbrev pub positive : Option ℤ → Option ℤ
positive none = none
positive (some d) = if ltb_ℤ (pos 0) d then some d else none

unfoldable pub parse_every : Durations → Bytes → ℤ → Option ℤ
parse_every du raw fallback =
    let parsed = positive (du.parse_duration (trim_space raw)) in
    if trim_space raw === [] then some fallback else parsed

abbrev label_pair : Bytes → Bytes → List Bytes
label_pair name value =
    if (name === []) || (name === codes "workload") || (value === [])
    then []
    else (name ++ b'=' ∷ value) ∷ []

-- The pairs before they are sorted.
unfoldable pub label_pairs : List (Bytes × Bytes) → List Bytes
label_pairs [] = []
label_pairs ((name, value) ∷ labels) =
    label_pair (trim_space name) (trim_space value) ++ label_pairs labels

module _ (derive : Bytes → Option Bytes) where
  abbrev name_for : Bytes → Bytes → Option Bytes
  name_for endpoint explicit =
      let derived = derive endpoint in if explicit === [] then derived else some explicit

  abbrev target_of : Target → Bytes → Bytes → Target
  target_of t name endpoint = record {
    name = name;
    url = endpoint;
    metrics = t.metrics;
    labels = t.labels;
    max_series = t.max_series;
  }

  abbrev new_target : Target → Bytes → List Bytes → Option Bytes → Option Target
  new_target t endpoint seen none = none
  new_target t endpoint seen (some name) =
      if elem_bytes name seen then none else some (target_of t name endpoint)

  -- One target, with the names that are taken.
  unfoldable pub resolve_target : List Bytes → Target → Option Target
  resolve_target seen t =
      let endpoint = trim_space t.url in
      let made = new_target t endpoint seen (name_for endpoint (trim_space t.name)) in
      if endpoint === [] then none else made

  abbrev pub prepend : Target → Option (List Target) → Option (List Target)
  prepend t none = none
  prepend t (some ts) = some (t ∷ ts)

  -- The targets, or the error of the first that has no address, no name, or the name of another.
  unfoldable pub resolve_targets : List Bytes → List Target → Option (List Target)
  resolve_targets seen [] = some []
  resolve_targets seen (t ∷ ts) = elim (resolve_target seen t) [
    | none ↦ none
    | some r ↦ prepend r (resolve_targets (r.name ∷ seen) ts)
  ]

-- A command as it is configured; its labels are sorted by the given function.
pub record CommandConfig : Type 0 where
  pub metric : Bytes
  pub command : Bytes
  pub args : List Bytes
  pub kind : Bytes
  pub labels : List (Bytes × Bytes)
  pub timeout : Bytes

module _ (lw : Lowering) (du : Durations) (sort : List Bytes → List Bytes) where
  abbrev pub kind_of : Bytes → Option Bytes
  kind_of kind =
      if (kind === []) || (kind === codes "value")
      then some (codes "value")
      else if kind === codes "counter"
      then some kind
      else none

  abbrev pub command_of : CommandConfig → Option Bytes → Option ℤ → Option Command
  command_of c none t = none
  command_of c (some kind) none = none
  command_of c (some kind) (some t) = some (record {
    metric = trim_space c.metric;
    path = trim_space c.command;
    args = c.args;
    kind = kind;
    labels = sort (label_pairs c.labels);
    timeout = t;
  })

  unfoldable pub resolve_command : CommandConfig → Option Command
  resolve_command c =
      let made =
        command_of c (kind_of (lw.lower (trim_space c.kind))) (parse_every du c.timeout (pos 0)) in
      if (trim_space c.metric === []) || (trim_space c.command === []) then none else made

  abbrev pub prepend_command : Command → Option (List Command) → Option (List Command)
  prepend_command c none = none
  prepend_command c (some cs) = some (c ∷ cs)

  unfoldable pub resolve_commands : List CommandConfig → Option (List Command)
  resolve_commands [] = some []
  resolve_commands (c ∷ cs) = elim (resolve_command c) [
    | none ↦ none
    | some r ↦ prepend_command r (resolve_commands cs)
  ]
