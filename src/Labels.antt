-- ===== src/Labels.antt =====
-- internal/integrations/instance.go. `url.Parse` is given, by the parts that the agent reads of what
-- it returns.
pub mod Naming
use prostometrics_agent.Base.{
  ℕ, suc, ◌+◌, ◌-◌, Bool, true, false, not, ◌&&◌, ◌||◌, List, [], ◌∷◌, ◌++◌, Option, none, some,
  Bytes, codes, if◌then◌else◌, ◌==◌, ◌===◌, is_some,
}
use prostometrics_agent.Text.Address.{split_host}
use prostometrics_agent.Text.Paths.{base, ext}
use prostometrics_agent.Text.Search.{
  has_prefix, trim_prefix, trim_suffix, trim_right_of, index, index_byte, before_index, split,
}
use prostometrics_agent.Text.Space.{trim_space}

-- A parsed URL: its `Host`, its `Path`, and the first `host` of its query, empty where there is none.
pub record Url : Type 0 where
  pub host : Bytes
  pub path : Bytes
  pub query_host : Bytes

pub record Urls : Type 0 where
  pub parse : Bytes → Option Url

abbrev pub named_by : Bytes → Option Bytes
named_by name = if name === [] then none else some name

abbrev pub without_ext : Bytes → Bytes
without_ext name =
    if (ext name === []) || (ext name === name) then name else trim_suffix name (ext name)

abbrev pub socket_name : Bytes → Option Bytes
socket_name name =
    if (name === []) || (name === codes ".") || (name === codes "/")
    then none
    else named_by (without_ext name)

unfoldable pub label_from_socket_path : Bytes → Option Bytes
label_from_socket_path path = socket_name (trim_space (base (trim_right_of (codes "/") path)))

unfoldable pub count_byte : Bytes → ℕ → ℕ
count_byte [] b = 0
count_byte (c ∷ s) b = (if c == b then 1 else 0) + count_byte s b

abbrev first_of : List Bytes → Bytes
first_of [] = []
first_of (p ∷ ps) = p

abbrev or_brackets_off : Bytes → Option Bytes → Bytes
or_brackets_off host none = trim_suffix (trim_prefix host (codes "[")) (codes "]")
or_brackets_off host (some h) = h

abbrev pub or_port_off : Bytes → Option Bytes → Bytes
or_port_off host none = if count_byte host b':' == 1 then first_of (split host b':') else host
or_port_off host (some h) = h

unfoldable pub hostname_from_host : Bytes → Bytes
hostname_from_host host =
    if host === []
    then host
    else if has_prefix host (codes "[")
    then or_brackets_off host (split_host host)
    else or_port_off host (split_host host)

abbrev pub socket_or_none : Bytes → Option Bytes
socket_or_none path = if path === [] then none else label_from_socket_path path

-- A URL without a host is named by the socket in its query, the host there, or its path.
unfoldable pub label_without_host : Url → Option Bytes
label_without_host u =
    let query_host = trim_space u.query_host in
    if query_host === []
    then socket_or_none (trim_space u.path)
    else if has_prefix query_host (codes "/")
    then label_from_socket_path query_host
    else some (hostname_from_host query_host)

abbrev pub first_host : Bytes → Bytes
first_host host =
    if is_some (index_byte host b',')
    then trim_space (before_index (index_byte host b',') host)
    else host

unfoldable pub label_from_host : Bytes → Option Bytes
label_from_host host = named_by (trim_space (hostname_from_host (first_host host)))

abbrev pub label_from_url : Option Url → Option Bytes
label_from_url none = none
label_from_url (some u) =
    let host = trim_space u.host in
    if host === [] then label_without_host u else label_from_host host

abbrev pub contains : Bytes → Bytes → Bool
contains s p = is_some (index s p)

-- An error is none.
unfoldable pub instance_label_from_uri : Urls → Bytes → Option Bytes
instance_label_from_uri urls uri =
    let u = trim_space uri in
    if u === []
    then none
    else if contains u (codes "://")
    then label_from_url (urls.parse u)
    else if has_prefix u (codes "/")
    then label_from_socket_path u
    else label_from_url (urls.parse (codes "scheme://" ++ u))
