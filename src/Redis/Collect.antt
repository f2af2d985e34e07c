-- ===== src/Redis/Collect.antt =====
-- internal/collectors/redis/collector.go and resp.go: `NewCollector`, `dial`, `collectInstance` and
-- `Collect`, over what arrives on the connection.
use prostometrics_agent.Base.{ℕ, true, false, List, [], ◌∷◌, ◌++◌, Option, none, some, Bytes, map}
use prostometrics_agent.Base.Integers.{ℤ}
use prostometrics_agent.Floats.{Floats}
use prostometrics_agent.Metrics.{Emission}
use prostometrics_agent.Redis.Info.{report_info}
use prostometrics_agent.Redis.Target.{RedisUrls, DialTarget, parse_uri, auth_args}
use prostometrics_agent.Redis.Wire.{Reply, replied, refused, read_reply}
use prostometrics_agent.Retry.{Slot, Attempt, Turn, new_slot, collect_turns}
use prostometrics_agent.Text.Case.{Lowering}

pub record Instance : Type 0 where
  pub uri : Bytes
  pub label : Bytes

-- An instance with its target and, where it has a client, the bytes that were received and not read.
pub record InstanceState : Type 0 where
  pub config : Instance
  pub target : DialTarget
  pub client : Option Bytes

-- What is received after connecting, none where that fails; what is received after INFO is sent, none
-- where sending fails; and the nanoseconds that have passed since a Unix time.
pub record Answers : Type 0 where
  pub greeting : Option Bytes
  pub info : Option Bytes
  pub since : ℕ → ℤ

-- The bytes that are left behind a reply, none where it is an error.
abbrev left_by : Reply → Option Bytes
left_by (replied line rest) = some rest
left_by (refused e rest) = none

abbrev authenticate : Option (List Bytes) → Bytes → Option Bytes
authenticate none received = some received
authenticate (some args) received = left_by (read_reply received)

abbrev dialled : DialTarget → Option Bytes → Option Bytes
dialled target none = none
dialled target (some received) = authenticate (auth_args target) received

-- The client that there is, or a new one.
abbrev pub ensure_client : Answers → DialTarget → Option Bytes → Option Bytes
ensure_client a target (some unread) = some unread
ensure_client a target none = dialled target a.greeting

abbrev failing : InstanceState → Option Bytes → Attempt Emission InstanceState
failing s client = record { sent = []; after = record s { client = client }; failed = true }

module _ (fl : Floats) where
  abbrev with_reply : Answers → InstanceState → Reply → Attempt Emission InstanceState
  with_reply a s (refused e rest) = failing s (some rest)
  with_reply a s (replied raw rest) = record {
    sent = report_info fl s.config.label a.since raw;
    after = record s { client = some rest };
    failed = false;
  }

  abbrev with_info : Answers → InstanceState → Bytes → Option Bytes → Attempt Emission InstanceState
  with_info a s unread none = failing s (some unread)
  with_info a s unread (some received) = with_reply a s (read_reply (unread ++ received))

  abbrev with_client : Answers → InstanceState → Option Bytes → Attempt Emission InstanceState
  with_client a s none = failing s none
  with_client a s (some unread) = with_info a s unread a.info

  unfoldable pub collect_instance : Answers → InstanceState → Attempt Emission InstanceState
  collect_instance a s = with_client a s (ensure_client a s.target s.client)

  abbrev pub reset_client : InstanceState → InstanceState
  reset_client s = record s { client = none }

  unfoldable pub collect :
      ℕ → ℕ → List (Turn Answers InstanceState) → List Emission × List (Slot InstanceState)
  unfolding collect_turns
  collect retry_every now turns = collect_turns retry_every collect_instance reset_client now turns

module _ (lw : Lowering) (urls : RedisUrls) where
  abbrev add_instance :
      Instance → Option DialTarget → List (Slot InstanceState) → List (Slot InstanceState)
  add_instance i none slots = slots
  add_instance i (some target) slots =
      new_slot (record { config = i; target = target; client = none }) ∷ slots

  -- An instance whose URI cannot be parsed is left out.
  unfoldable pub new_collector : List Instance → List (Slot InstanceState)
  new_collector [] = []
  new_collector (i ∷ is) = add_instance i (parse_uri lw urls i.uri) (new_collector is)

-- `Close`
unfoldable pub close : List (Slot InstanceState) → List (Slot InstanceState)
close slots =
    map (λ (s : Slot InstanceState). record s { state = record (s.state) { client = none } }) slots
