-- ===== src/Labels/Naming.antt =====
-- When an instance gets a name, and when the name is empty.
use mathlib.Core.Bool.{false≢true}
use prostometrics_agent.Base.{
  ℕ, arith, ◌⊎◌, Bool, true, false, [], ◌∷◌, ◌++◌, Option, none, some, Bytes, codes, ◌≡◌, inl, inr,
  refl, ◌===◌, Bool-cases, Lacks, if◌then◌else◌,
}
use prostometrics_agent.Labels.{
  Url, Urls, named_by, without_ext, socket_name, label_from_socket_path, hostname_from_host,
  label_without_host, first_host, label_from_host, label_from_url, contains,
  instance_label_from_uri, or_port_off, count_byte,
}
use prostometrics_agent.Text.Address.Ports.{split_host-port, split_host-lacks}
use prostometrics_agent.Text.Paths.{base}
use prostometrics_agent.Text.Search.{index, has_prefix, trim_right_of}
use prostometrics_agent.Text.Space.{trim_space}

-- A name that is given is not empty.
abbrev pub NotEmpty : Option Bytes → Type 0
NotEmpty none = Unit
NotEmpty (some l) = (l === []) ≡ false

named_by-NotEmpty : (name : Bytes) → NotEmpty (named_by name)
named_by-NotEmpty name = elim (Bool-cases (name === [])) [
  | inl e ↦ rw (e, NotEmpty) tt
  | inr e ↦ rw (e, NotEmpty) e
]

if-NotEmpty :
    (b : Bool) (x y : Option Bytes) → NotEmpty x → NotEmpty y → NotEmpty (if b then x else y)
if-NotEmpty true x y h k = h
if-NotEmpty false x y h k = k

socket_name-NotEmpty : (name : Bytes) → NotEmpty (socket_name name)
socket_name-NotEmpty name = if-NotEmpty _ none _ tt (named_by-NotEmpty (without_ext name))

socket-NotEmpty : (path : Bytes) → NotEmpty (label_from_socket_path path)
unfolding label_from_socket_path
socket-NotEmpty path = socket_name-NotEmpty (trim_space (base (trim_right_of (codes "/") path)))

label_from_host-NotEmpty : (host : Bytes) → NotEmpty (label_from_host host)
unfolding label_from_host
label_from_host-NotEmpty host =
    named_by-NotEmpty (trim_space (hostname_from_host (first_host host)))

count_byte-lacks : (s : Bytes) (b : ℕ) → Lacks b s → count_byte s b ≡ 0
unfolding count_byte
count_byte-lacks [] b h = refl
count_byte-lacks (c ∷ s) b (hc, h) = ground (arith, count_byte-lacks s b h)

hostname-lacks :
    (h : Bytes)
    → (h === []) ≡ false
    → has_prefix h (codes "[") ≡ false
    → Lacks b':' h
    → hostname_from_host h ≡ h
unfolding hostname_from_host
hostname-lacks h e k l =
    rw (e, k, split_host-lacks h l, or_port_off, count_byte-lacks h b':' l) refl

-- The query of the URL gives no host, a socket, or a host without a port.
abbrev pub HasPlainHost : Option Url → Type 0
HasPlainHost none = Unit
HasPlainHost (some u) =
    ((trim_space u.query_host === []) ≡ true)
    ⊎ (has_prefix (trim_space u.query_host) (codes "/") ≡ true)
    ⊎ ((has_prefix (trim_space u.query_host) (codes "[") ≡ false)
        × Lacks b':' (trim_space u.query_host))

by_query_host :
    (u : Url)
    → HasPlainHost (some u)
    → (trim_space u.query_host === []) ≡ false
    → has_prefix (trim_space u.query_host) (codes "/") ≡ false
    → NotEmpty (some (hostname_from_host (trim_space u.query_host)))
by_query_host u (inl blank) e k = cc
by_query_host u (inr (inl socket)) e k = cc
by_query_host u (inr (inr (b, l))) e k = rw (hostname-lacks (trim_space u.query_host) e b l) e

without_host-NotEmpty : (u : Url) → HasPlainHost (some u) → NotEmpty (label_without_host u)
unfolding label_without_host
without_host-NotEmpty u h = elim (Bool-cases (trim_space u.query_host === [])) [
  | inl e ↦ rw e (
      if-NotEmpty (trim_space u.path === []) none (label_from_socket_path (trim_space u.path)) tt
        (socket-NotEmpty (trim_space u.path)))
  | inr e ↦ elim (Bool-cases (has_prefix (trim_space u.query_host) (codes "/"))) [
    | inl k ↦ rw (e, k) (socket-NotEmpty (trim_space u.query_host))
    | inr k ↦ rw (e, k, NotEmpty) (by_query_host u h e k)
  ]
]

label_from_url-NotEmpty : (o : Option Url) → HasPlainHost o → NotEmpty (label_from_url o)
label_from_url-NotEmpty none h = tt
label_from_url-NotEmpty (some u) h =
    if-NotEmpty (trim_space u.host === []) (label_without_host u)
      (label_from_host (trim_space u.host)) (without_host-NotEmpty u h)
      (label_from_host-NotEmpty (trim_space u.host))

-- What a URI is parsed as.
abbrev pub parsed_as : Urls → Bytes → Option Url
parsed_as urls uri =
    if contains uri (codes "://") then urls.parse uri else urls.parse (codes "scheme://" ++ uri)

-- An instance that is named after what it connects to, a socket or a host, never gets an empty name,
-- as long as the query of its URL gives no host with a port.
pub instance_label_lem :
    (urls : Urls) (uri : Bytes)
    → HasPlainHost (parsed_as urls (trim_space uri))
    → NotEmpty (instance_label_from_uri urls uri)
unfolding instance_label_from_uri
instance_label_lem urls uri h =
    let u = trim_space uri in
    if-NotEmpty (u === []) none _ tt (elim (Bool-cases (contains u (codes "://"))) [
      | inl e ↦ rw e (label_from_url-NotEmpty (urls.parse u) (rw e at h))
      | inr e ↦ rw e (
          if-NotEmpty (has_prefix u (codes "/")) (label_from_socket_path u) _ (socket-NotEmpty u)
            (label_from_url-NotEmpty (urls.parse (codes "scheme://" ++ u)) (rw e at h)))
    ])

contains-nil : contains [] (codes "://") ≡ false
unfolding index has_prefix
contains-nil = refl

not_empty : (s : Bytes) → contains s (codes "://") ≡ true → (s === []) ≡ false
unfolding ◌===◌
not_empty [] h = absurd (false≢true (rw contains-nil at h))
not_empty (c ∷ s) h = refl

colon-hostname :
    (port : Bytes)
    → Lacks b':' port
    → Lacks b'[' port
    → Lacks b']' port
    → hostname_from_host (b':' ∷ port) ≡ []
unfolding hostname_from_host has_prefix ◌===◌
colon-hostname port h k l = rw (or_port_off, split_host-port port h k l)

-- A URL that has no host, and whose query gives a port alone, as in `?host=:5432`, gives its instance
-- an empty name instead of an error.
pub empty_label :
    (urls : Urls) (uri port : Bytes) (u : Url)
    → contains (trim_space uri) (codes "://") ≡ true
    → urls.parse (trim_space uri) ≡ some u
    → (trim_space u.host === []) ≡ true
    → trim_space u.query_host ≡ b':' ∷ port
    → Lacks b':' port
    → Lacks b'[' port
    → Lacks b']' port
    → instance_label_from_uri urls uri ≡ some []
unfolding instance_label_from_uri label_without_host has_prefix ◌===◌
empty_label urls uri port u full parsed blank given h k l =
    rw (not_empty (trim_space uri) full, full, parsed, blank, given, colon-hostname port h k l)
