-- ===== src/Redis/Target.antt =====
-- internal/collectors/redis/resp.go: `parseURI`, and what `dial` sends to authenticate. `url.Parse` is
-- given, by the parts that are read of what it returns.
use prostometrics_agent.Base.{
  Bool, true, false, List, [], ◌∷◌, ◌++◌, Option, none, some, Bytes, codes, if◌then◌else◌, ◌===◌,
  is_some,
}
use prostometrics_agent.Text.Address.{join_host_port}
use prostometrics_agent.Text.Case.{Lowering}
use prostometrics_agent.Text.Search.{has_prefix, index}
use prostometrics_agent.Text.Space.{trim_space}

-- `Scheme`, `Path`, `Hostname()`, `Port()`, the user and the password, empty where they are not given,
-- and the first `tls_skip_verify` of the query.
pub record RedisUrl : Type 0 where
  pub scheme : Bytes
  pub path : Bytes
  pub hostname : Bytes
  pub port : Bytes
  pub user : Bytes
  pub secret : Bytes
  pub skip_verify : Bytes

pub record RedisUrls : Type 0 where
  pub parse : Bytes → Option RedisUrl

pub record DialTarget : Type 0 where
  pub network : Bytes
  pub address : Bytes
  pub username : Bytes
  pub password : Bytes
  pub use_tls : Bool
  pub insecure : Bool

abbrev unix_target : Bytes → Bytes → Bytes → DialTarget
unix_target address user secret = record {
  network = codes "unix";
  address = address;
  username = user;
  password = secret;
  use_tls = false;
  insecure = false;
}

abbrev port_of : RedisUrl → Bytes
port_of u = if u.port === [] then codes "6379" else u.port

abbrev tcp_target : RedisUrl → Bool → DialTarget
tcp_target u tls = record {
  network = codes "tcp";
  address = join_host_port u.hostname (port_of u);
  username = u.user;
  password = u.secret;
  use_tls = tls;
  insecure = u.skip_verify === codes "true";
}

abbrev over_tcp : RedisUrl → Bool → Option DialTarget
over_tcp u tls = if u.hostname === [] then none else some (tcp_target u tls)

abbrev over_unix : RedisUrl → Option DialTarget
over_unix u = if u.path === [] then none else some (unix_target u.path u.user u.secret)

module _ (lw : Lowering) (urls : RedisUrls) where
  abbrev by_scheme : RedisUrl → Option DialTarget
  by_scheme u =
      let scheme = lw.lower u.scheme in
      if scheme === codes "redis"
      then over_tcp u false
      else if scheme === codes "rediss"
      then over_tcp u true
      else if scheme === codes "unix"
      then over_unix u
      else none

  abbrev target_of : Option RedisUrl → Option DialTarget
  target_of none = none
  target_of (some u) = by_scheme u

  -- An error is none.
  unfoldable pub parse_uri : Bytes → Option DialTarget
  parse_uri raw =
      let trimmed = trim_space raw in
      if trimmed === []
      then none
      else if is_some (index trimmed (codes "://"))
      then target_of (urls.parse trimmed)
      else if has_prefix trimmed (codes "/")
      then some (unix_target trimmed [] [])
      else target_of (urls.parse (codes "redis://" ++ trimmed))

abbrev user_args : Bytes → List Bytes
user_args user = if user === [] then [] else user ∷ []

-- The arguments of `AUTH`, none where no password is given.
unfoldable pub auth_args : DialTarget → Option (List Bytes)
auth_args t =
    if t.password === []
    then none
    else some (codes "AUTH" ∷ user_args t.username ++ t.password ∷ [])
