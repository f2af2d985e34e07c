-- ===== src/Config/Instances.antt =====
-- cmd/prostometrics-agent/config.go: `resolveInstances` and `mysqlLabelFromDSN`. How a label is
-- derived from a connection string is given to the first.
pub mod Complete
pub mod Dsn
use prostometrics_agent.Base.{
  ℕ, ◌+◌, ◌-◌, Bool, true, false, ◌&&◌, List, [], ◌∷◌, Option, none, some, Bytes, codes, ◌≡◌, ◌≢◌,
  ◌⊎◌, inl, inr, refl, arith, if◌then◌else◌, ◌===◌, length, ltb, take, drop, Bool-cases,
  Option-cases, All, ap, ◌∙◌,
}
use prostometrics_agent.Config.Enabled.{Verdict, off, on, nothing_configured, integration_enabled}
use prostometrics_agent.Text.Address.{split_host}
use prostometrics_agent.Text.Search.{index_byte}
use prostometrics_agent.Text.Space.{trim_space}

-- An entry: its connection string and its label.
pub record Entry : Type 0 where
  pub connection : Bytes
  pub label : Bytes

pub record Instance : Type 0 where
  pub connection : Bytes
  pub label : Bytes

-- The resolved instances, with whether the integration is on, or the error.
pub data Resolved : Type 0 where
  refused : Resolved
  resolved : Bool → List Instance → Resolved

module _ (derive : Bytes → Option Bytes) where
  abbrev named : Bytes → Option Bytes → Option Instance
  named connection none = none
  named connection (some label) = some (record { connection = connection; label = label })

  abbrev pub label_for : Bytes → Bytes → Option Bytes
  label_for connection explicit =
      let derived = derive connection in if explicit === [] then derived else some explicit

  unfoldable pub resolve_entry : Entry → Option Instance
  resolve_entry e =
      let connection = trim_space e.connection in
      let instance' = named connection (label_for connection (trim_space e.label)) in
      if connection === [] then none else instance'

  abbrev pub prepend : Instance → Option (List Instance) → Option (List Instance)
  prepend i none = none
  prepend i (some is) = some (i ∷ is)

  unfoldable pub resolve_entries : List Entry → Option (List Instance)
  resolve_entries [] = some []
  resolve_entries (e ∷ es) = elim (resolve_entry e) [
    | none ↦ none
    | some i ↦ prepend i (resolve_entries es)
  ]

  abbrev pub finish : Option (List Instance) → Resolved
  finish none = refused
  finish (some is) = resolved true is

  abbrev pub decide : Verdict → Option (List Instance) → Resolved
  decide off is = resolved false []
  decide nothing_configured is = refused
  decide on is = finish is

  unfoldable pub resolve_instances : Option Bool → List Entry → Resolved
  resolve_instances flag entries =
      decide (integration_enabled flag (length entries)) (resolve_entries entries)

-- `host` is what `net.SplitHostPort` finds in the address, none where that is an error.
abbrev pub host_or_address : Bytes → Option Bytes → Bytes
host_or_address address none = if address === [] then codes "mysql" else address
host_or_address address (some host) =
    if host === [] then (if address === [] then codes "mysql" else address) else host

abbrev pub label_between : Bytes → Option ℕ → Option ℕ → Bytes
label_between dsn none close = codes "mysql"
label_between dsn (some open') none = codes "mysql"
label_between dsn (some open') (some close) =
    let address = trim_space (take (close - (open' + 1)) (drop (open' + 1) dsn)) in
    let named = host_or_address address (split_host address) in
    if ltb open' close then named else codes "mysql"

unfoldable pub mysql_label_from_dsn : Bytes → Bytes
mysql_label_from_dsn dsn = label_between dsn (index_byte dsn b'(') (index_byte dsn b')')
