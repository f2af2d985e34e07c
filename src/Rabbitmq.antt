-- ===== src/Rabbitmq.antt =====
-- internal/collectors/rabbitmq/collector.go. What the management API answers is given: each request
-- by its status and what the decoder makes of the body.
pub mod Drained
use prostometrics_agent.Base.{
  ℕ, ◌+◌, ◌%◌, ◌^◌, Bool, true, false, ◌&&◌, ◌||◌, List, [], ◌∷◌, ◌++◌, Option, none, some, Bytes,
  codes, if◌then◌else◌, ◌===◌, ltb, leb, take, map, elem_bytes,
}
use prostometrics_agent.Base.Integers.{ℤ, pos, pos_part, ltb_ℤ}
use prostometrics_agent.Metrics.{
  whole, Label, label, Emission, value_sparse, total, unless_negative,
}
use prostometrics_agent.Retry.{Slot, Attempt, Turn, new_slot, collect_turns}
use prostometrics_agent.Text.Search.{trim_suffix}
use prostometrics_agent.Text.Space.{trim_space}

abbrev pub max_queues : ℕ
max_queues = 20

pub record Instance : Type 0 where
  pub url : Bytes
  pub label : Bytes

-- An instance with the keys of its map of reported queues.
pub record InstanceState : Type 0 where
  pub config : Instance
  pub last_queues : List Bytes

pub record Overview : Type 0 where
  pub connections : ℤ
  pub channels : ℤ
  pub queues : ℤ
  pub consumers : ℤ
  pub messages : ℤ
  pub ready : ℤ
  pub unacknowledged : ℤ
  pub publish : ℤ
  pub deliver_get : ℤ
  pub ack : ℤ
  pub redeliver : ℤ

pub record QueueInfo : Type 0 where
  pub name : Bytes
  pub vhost : Bytes
  pub ready : ℤ
  pub unacknowledged : ℤ
  pub consumers : ℤ

-- A request that cannot be built or sent, and an answer with its status and the decoded body.
pub data Response (V : Type 0) : Type 0 where
  unsent : Response V
  answered : ℕ → Option V → Response V

-- `getJSON`
abbrev pub get_json : {V : Type 0} → Response V → Option V
get_json unsent = none
get_json (answered status body) = if ltb status 200 || leb 300 status then none else body

abbrev pub endpoint : Bytes → Bytes → Bytes
endpoint base path = trim_suffix base (codes "/") ++ path

-- What `/api/queues` answers: a page with its items, an array, or neither.
pub data QueueBody : Type 0 where
  page : List QueueInfo → QueueBody
  array : List QueueInfo → QueueBody
  unrecognized : QueueBody

abbrev pub queues_columns : Bytes
queues_columns =
    codes "/api/queues?columns=name%2Cvhost%2Cmessages_ready%2Cmessages_unacknowledged%2Cconsumers"

abbrev pub queue_paths : List Bytes
queue_paths =
    (queues_columns ++ codes "&page=1&page_size=20&sort=messages&sort_reverse=true")
    ∷ queues_columns
    ∷ []

pub record Answers : Type 0 where
  pub overview : Bytes → Response Overview
  pub listing : Bytes → Response QueueBody

abbrev pub or_next : Option QueueBody → Option (List QueueInfo) → Option (List QueueInfo)
or_next none next = next
or_next (some (page items)) next = some items
or_next (some (array list)) next = some list
or_next (some unrecognized) next = next

-- The queues of the first path whose answer is recognized.
unfoldable pub try_paths : Answers → Bytes → List Bytes → Option (List QueueInfo)
try_paths a base [] = none
try_paths a base (path ∷ paths) =
    or_next (get_json (a.listing (endpoint base path))) (try_paths a base paths)

unfoldable pub list_queues : Answers → Bytes → Option (List QueueInfo)
unfolding try_paths
list_queues a base = try_paths a base queue_paths

-- `max64`
abbrev pub max64 : ℤ → ℤ → ℤ
max64 v floor = if ltb_ℤ v floor then floor else v

abbrev pub object : Label → Bytes → ℤ → List Emission
object inst typ =
    unless_negative
      λ n. value_sparse (codes "rabbitmq.objects") (whole n) (inst ∷ label (codes "type") typ ∷ [])

abbrev pub messages : Label → Bytes → ℤ → List Emission
messages inst state = unless_negative λ n.
    value_sparse (codes "rabbitmq.messages") (whole n) (inst ∷ label (codes "state") state ∷ [])

abbrev pub flow : Label → Bytes → ℤ → List Emission
flow inst typ =
    unless_negative
      λ n. total (codes "rabbitmq.messages_count") (whole n) (inst ∷ label (codes "type") typ ∷ [])

unfoldable pub report_overview : Label → Overview → List Emission
report_overview inst v =
    object inst (codes "connections") v.connections
    ++ object inst (codes "channels") v.channels
    ++ object inst (codes "queues") v.queues
    ++ object inst (codes "consumers") v.consumers
    ++ messages inst (codes "ready") v.ready
    ++ messages inst (codes "unacknowledged") v.unacknowledged
    ++ flow inst (codes "publish") v.publish
    ++ flow inst (codes "deliver") v.deliver_get
    ++ flow inst (codes "ack") v.ack
    ++ flow inst (codes "redeliver") v.redeliver

abbrev pub depth : Label → Bytes → Bytes → ℕ → Emission
depth inst name state n =
    value_sparse (codes "rabbitmq.queue_messages") (whole n)
      (inst ∷ label (codes "queue") name ∷ label (codes "state") state ∷ [])

abbrev pub at_least_zero : ℤ → ℕ
at_least_zero v = pos_part (max64 v (pos 0))

abbrev pub queue_readings : Label → Bytes → QueueInfo → List Emission
queue_readings inst name q =
    depth inst name (codes "ready") (at_least_zero q.ready)
    ∷ depth inst name (codes "unacknowledged") (at_least_zero q.unacknowledged)
    ∷ value_sparse (codes "rabbitmq.queue_consumers") (whole (at_least_zero q.consumers))
        (inst ∷ label (codes "queue") name ∷ [])
    ∷ []

abbrev named_readings : Label → Bytes → QueueInfo → List Emission
named_readings inst name q = if name === [] then [] else queue_readings inst name q

unfoldable pub report_queues : Label → List QueueInfo → List Emission
report_queues inst [] = []
report_queues inst (q ∷ qs) = named_readings inst (trim_space q.name) q ++ report_queues inst qs

abbrev add_name : Bytes → List Bytes → List Bytes
add_name name names = if (name === []) || elem_bytes name names then names else name ∷ names

-- The keys of `current`.
unfoldable pub current_names : List QueueInfo → List Bytes
current_names [] = []
current_names (q ∷ qs) = add_name (trim_space q.name) (current_names qs)

abbrev zero_readings : Label → Bytes → List Emission
zero_readings inst name =
    depth inst name (codes "ready") 0 ∷ depth inst name (codes "unacknowledged") 0 ∷ []

abbrev unless_current : Label → List Bytes → Bytes → List Emission
unless_current inst current name = if elem_bytes name current then [] else zero_readings inst name

-- Zeros for the queues that are no longer among the current ones.
unfoldable pub drain : Label → List Bytes → List Bytes → List Emission
drain inst current [] = []
drain inst current (name ∷ last) = unless_current inst current name ++ drain inst current last

-- `sort.Slice` is given by a function, since it leaves the order of equal queues open.
module _ (sort_queues : List QueueInfo → List QueueInfo) where
  abbrev pub top_queues : List QueueInfo → List QueueInfo
  top_queues queues = take max_queues (sort_queues queues)

  abbrev pub follow_queues :
      Label → Option (List QueueInfo) → List Bytes → List Emission × List Bytes
  follow_queues inst none last = ([], last)
  follow_queues inst (some queues) last =
      let top = top_queues queues in
      let current = current_names top in
      (report_queues inst top ++ drain inst current last, current)

  abbrev finish_instance :
      InstanceState → List Emission → List Emission × List Bytes → Attempt Emission InstanceState
  finish_instance s sent (more, last) = record {
    sent = sent ++ more;
    after = record s { last_queues = last };
    failed = false;
  }

  abbrev with_overview : Answers → InstanceState → Option Overview → Attempt Emission InstanceState
  with_overview a s none = record { sent = []; after = s; failed = true }
  with_overview a s (some view) =
      let inst = label (codes "instance") s.config.label in
      finish_instance s (report_overview inst view)
        (follow_queues inst (list_queues a s.config.url) s.last_queues)

  unfoldable pub collect_instance : Answers → InstanceState → Attempt Emission InstanceState
  collect_instance a s =
      with_overview a s (get_json (a.overview (endpoint s.config.url (codes "/api/overview"))))

  -- `Collect`; an instance that failed keeps its queues.
  unfoldable pub collect :
      ℕ → ℕ → List (Turn Answers InstanceState) → List Emission × List (Slot InstanceState)
  unfolding collect_turns
  collect retry_every now turns = collect_turns retry_every collect_instance (λ s. s) now turns

unfoldable pub new_collector : List Instance → List (Slot InstanceState)
new_collector instances = map (λ i. new_slot (record { config = i; last_queues = [] })) instances
