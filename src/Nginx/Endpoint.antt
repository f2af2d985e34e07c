-- ===== src/Nginx/Endpoint.antt =====
-- internal/collectors/nginx/collector.go and probe.go: the endpoint of the status page, how it is
-- fetched, and the search for it. `url.Parse` is given with what is read of its result, and each
-- request by its outcome.
use prostometrics_agent.Base.{
  ℕ, Bool, true, false, ◌||◌, List, [], ◌∷◌, ◌++◌, Option, none, some, Bytes, codes, if◌then◌else◌,
  ◌===◌, is_some, ltb, leb, take,
}
use prostometrics_agent.Nginx.Status.{StubStatus, parse_stub_status}
use prostometrics_agent.Text.Case.{Lowering}
use prostometrics_agent.Text.Number.{itoa}
use prostometrics_agent.Text.Search.{index}
use prostometrics_agent.Text.Space.{trim_space}

abbrev pub default_endpoint : Bytes
default_endpoint = codes "http://127.0.0.1/stub_status"

abbrev pub max_body_bytes : ℕ
max_body_bytes = 4096

-- A parsed URL with its `Host` and `Path`, the same with another path, and `String()`.
pub record Endpoints : Type 1 where
  pub U : Type 0
  pub parse : Bytes → Option U
  pub host : U → Bytes
  pub path : U → Bytes
  pub with_path : U → Bytes → U
  pub spelled : U → Bytes

module _ (e : Endpoints) where
  open e use {U, parse, host, path, with_path, spelled}

  abbrev with_default_path : U → U
  with_default_path u =
      if (path u === []) || (path u === codes "/") then with_path u (codes "/stub_status") else u

  abbrev normalized : Bytes → Option U → Bytes
  normalized ep none = ep
  normalized ep (some u) = spelled (with_default_path u)

  abbrev with_scheme : Bytes → Bytes
  with_scheme ep = if is_some (index ep (codes "://")) then ep else codes "http://" ++ ep

  unfoldable pub normalize_endpoint : Bytes → Bytes
  normalize_endpoint endpoint =
      let ep = trim_space endpoint in
      if ep === [] then default_endpoint else normalized (with_scheme ep) (parse (with_scheme ep))

  abbrev has_host : Option U → Bool
  has_host none = false
  has_host (some u) = if trim_space (host u) === [] then false else true

  -- Whether there is no error.
  unfoldable pub validate_endpoint : Bytes → Bool
  validate_endpoint endpoint = has_host (parse endpoint)

-- A request that cannot be built or sent, or whose body cannot be read, and an answer with its status
-- and its body.
pub data Answer : Type 0 where
  no_answer : Answer
  answered : ℕ → Bytes → Answer

module _ (lw : Lowering) (get : Bytes → Answer) where
  abbrev status_of : Answer → Option StubStatus
  status_of no_answer = none
  status_of (answered status body) =
      if ltb status 200 || leb 300 status
      then none
      else parse_stub_status lw (take max_body_bytes body)

  unfoldable pub fetch_stub_status : Bytes → Option StubStatus
  fetch_stub_status endpoint =
      status_of (get (if trim_space endpoint === [] then default_endpoint else endpoint))

  abbrev pub auto_probe_ports : List ℕ
  auto_probe_ports = 80 ∷ 8080 ∷ 8081 ∷ 8888 ∷ []

  abbrev auto_endpoint : ℕ → Bytes → Bytes
  auto_endpoint port path = codes "http://127.0.0.1:" ++ itoa port ++ path

  -- The endpoints that are tried, in order.
  abbrev pub auto_endpoints : List ℕ → List Bytes
  auto_endpoints [] = []
  auto_endpoints (port ∷ ports) =
      auto_endpoint port (codes "/stub_status")
      ∷ auto_endpoint port (codes "/nginx_status")
      ∷ auto_endpoints ports

  -- `cancelled` tells whether the context is cancelled after that endpoint was tried.
  unfoldable pub try_endpoints : (Bytes → Bool) → List Bytes → Option Bytes
  try_endpoints cancelled [] = none
  try_endpoints cancelled (ep ∷ eps) =
      let rest = try_endpoints cancelled eps in
      if is_some (fetch_stub_status ep) then some ep else if cancelled ep then none else rest

  unfoldable pub auto_probe_endpoint : (Bytes → Bool) → Option Bytes
  unfolding try_endpoints
  auto_probe_endpoint cancelled = try_endpoints cancelled (auto_endpoints auto_probe_ports)

  -- `Detect`: the endpoint that the probe goes on with, none where the status page is not found.
  unfoldable pub detect : (Bytes → Bool) → Bytes → Option Bytes
  detect cancelled configured =
      let found = auto_probe_endpoint cancelled in
      if trim_space configured === []
      then found
      else if is_some (fetch_stub_status (trim_space configured))
      then some configured
      else none
