-- ===== src/Config/Workload.antt =====
-- cmd/prostometrics-agent/config.go: `resolveWorkload`.
use prostometrics_agent.Base.{
  Bool, true, false, [], Option, none, some, Bytes, ◌≡◌, if◌then◌else◌, ◌===◌, Bool-cases, inl, inr,
}
use prostometrics_agent.Text.Space.{trim_space}

-- An empty name is an error.
abbrev not_empty : Bytes → Option Bytes
not_empty w = if w === [] then none else some w

abbrev of_host : Option Bytes → Option Bytes
of_host none = none
of_host (some host) = not_empty (trim_space host)

abbrev of_flag : Bytes → Bool → Option Bytes → Option Bytes
of_flag flag is_set host =
    let fallback = of_host host in
    let given = not_empty flag in
    if is_set then given else if flag === [] then fallback else some flag

-- The workload of the configuration file, none where it is not given, the flag with whether it is
-- set, and the name of the host, none where the lookup fails.
unfoldable pub resolve_workload : Option Bytes → Bytes → Bool → Option Bytes → Option Bytes
resolve_workload (some w) flag is_set host = not_empty (trim_space w)
resolve_workload none flag is_set host = of_flag (trim_space flag) is_set host

abbrev pub NotEmpty : Option Bytes → Type 0
NotEmpty none = Unit
NotEmpty (some r) = (r === []) ≡ false

not_empty-NotEmpty : (w : Bytes) → NotEmpty (not_empty w)
not_empty-NotEmpty w = elim (Bool-cases (w === [])) [
  | inl e ↦ rw (e, NotEmpty) tt
  | inr e ↦ rw (e, NotEmpty) e
]

of_host-NotEmpty : (host : Option Bytes) → NotEmpty (of_host host)
of_host-NotEmpty none = tt
of_host-NotEmpty (some host) = not_empty-NotEmpty (trim_space host)

of_flag-NotEmpty :
    (flag : Bytes) (is_set : Bool) (host : Option Bytes) → NotEmpty (of_flag flag is_set host)
of_flag-NotEmpty flag true host = not_empty-NotEmpty flag
of_flag-NotEmpty flag false host = elim (Bool-cases (flag === [])) [
  | inl e ↦ rw (e, NotEmpty) (of_host-NotEmpty host)
  | inr e ↦ rw (e, NotEmpty) e
]

-- A workload that is resolved is not empty, wherever it comes from; whatever would leave it empty is
-- an error.
pub resolve_workload_lem :
    (file : Option Bytes) (flag : Bytes) (is_set : Bool) (host : Option Bytes)
    → NotEmpty (resolve_workload file flag is_set host)
unfolding resolve_workload
resolve_workload_lem none flag is_set host = of_flag-NotEmpty (trim_space flag) is_set host
resolve_workload_lem (some w) flag is_set host = not_empty-NotEmpty (trim_space w)
