-- ===== src/Mongo.antt =====
-- internal/collectors/mongo/collector.go. What the driver gives is an argument: whether it connects
-- and pings, and the decoded answer to `serverStatus`.
pub mod Latency
use prostometrics_agent.Base.{
  ℕ, ◌+◌, ◌-◌, ◌^◌, Bool, true, false, ◌&&◌, List, [], ◌∷◌, ◌++◌, Option, none, some, Bytes, codes,
  if◌then◌else◌, ltb, map,
}
use prostometrics_agent.Base.Integers.{ℤ, pos, negsuc, neg, pos_part, neg_part, ltb_ℤ}
use prostometrics_agent.Metrics.{
  whole, kilo, millis, Label, label, Emission, value, total, unless_negative,
}
use prostometrics_agent.Retry.{Slot, Attempt, Turn, new_slot, collect_turns}

pub record Instance : Type 0 where
  pub uri : Bytes
  pub label : Bytes

pub record OpLatency : Type 0 where
  pub latency : ℤ
  pub ops : ℤ

pub record OpLatencies : Type 0 where
  pub reads : OpLatency
  pub writes : OpLatency
  pub commands : OpLatency

-- `prevOpLat`, none while `hasPrevLat` is false.
pub record InstanceState : Type 0 where
  pub config : Instance
  pub has_client : Bool
  pub prev : Option OpLatencies

pub record OpCounters : Type 0 where
  pub insert : ℤ
  pub query : ℤ
  pub update : ℤ
  pub delete : ℤ
  pub get_more : ℤ
  pub command : ℤ

-- The fields of the nested structs, flat.
pub record ServerStatus : Type 0 where
  pub current : ℤ
  pub available : ℤ
  pub resident : ℤ
  pub bytes_current : ℤ
  pub bytes_max : ℤ
  pub evictions : ℤ
  pub counters : OpCounters
  pub latencies : OpLatencies

-- A difference of int64 numbers that is not negative, as an int64.
abbrev pub as_int64 : ℕ → ℤ
as_int64 d = if ltb d (2 ^ 63) then pos d else neg (2 ^ 64 - d)

unfoldable pub diff_counter : ℤ → ℤ → ℤ
diff_counter prev cur =
    if ltb_ℤ cur prev
    then pos 0
    else as_int64 (pos_part cur + neg_part prev - (pos_part prev + neg_part cur))

abbrev pub typed : Label → Bytes → List Label
typed inst typ = inst ∷ label (codes "type") typ ∷ []

abbrev connection : Label → Bytes → ℤ → List Emission
connection inst typ =
    unless_negative (λ n. value (codes "mongo.connections") (whole n) (typed inst typ))

abbrev cache : Label → Bytes → ℤ → List Emission
cache inst typ = unless_negative (λ n. value (codes "mongo.wt.cache.kb") (kilo n) (typed inst typ))

abbrev op : Label → Bytes → ℤ → List Emission
op inst typ = unless_negative (λ n. total (codes "mongo.ops_count") (whole n) (typed inst typ))

unfoldable pub report_status : Label → ServerStatus → List Emission
report_status inst s =
    connection inst (codes "current") s.current
    ++ connection inst (codes "available") s.available
    ++ unless_negative (λ n. value (codes "mongo.mem.resident_mb") (whole n) (inst ∷ [])) s.resident
    ++ cache inst (codes "used") s.bytes_current
    ++ cache inst (codes "max") s.bytes_max
    ++ unless_negative (λ n. total (codes "mongo.wt.cache.evictions_count") (whole n) (inst ∷ []))
        s.evictions
    ++ op inst (codes "insert") s.counters.insert
    ++ op inst (codes "query") s.counters.query
    ++ op inst (codes "update") s.counters.update
    ++ op inst (codes "delete") s.counters.delete
    ++ op inst (codes "getmore") s.counters.get_more
    ++ op inst (codes "command") s.counters.command

-- The quotient of two positive numbers is positive, so the test on it never holds anything back.
unfoldable pub emit_latency : Label → Bytes → OpLatency → OpLatency → List Emission
emit_latency inst typ prev cur =
    let delta_ops = diff_counter prev.ops cur.ops in
    let delta_latency = diff_counter prev.latency cur.latency in
    if ltb_ℤ (pos 0) delta_ops && ltb_ℤ (pos 0) delta_latency
    then value (codes "mongo.op_latency_ms") (millis (pos_part delta_latency) (pos_part delta_ops))
        (typed inst typ)
      ∷ []
    else []

abbrev pub emit_latencies : Label → Option OpLatencies → OpLatencies → List Emission
emit_latencies inst none cur = []
emit_latencies inst (some prev) cur =
    emit_latency inst (codes "reads") prev.reads cur.reads
    ++ emit_latency inst (codes "writes") prev.writes cur.writes
    ++ emit_latency inst (codes "commands") prev.commands cur.commands

pub record Answers : Type 0 where
  pub connects : Bool
  pub pings : Bool
  -- None where the command or its decoding fails.
  pub status : Option ServerStatus

-- A client that is new has been pinged.
abbrev pub ensure_client : Answers → InstanceState → Bool
ensure_client a s = if s.has_client then true else a.connects && a.pings

abbrev pub with_status : InstanceState → Option ServerStatus → Attempt Emission InstanceState
with_status s none = record { sent = []; after = record s { has_client = false }; failed = true }
with_status s (some status) =
    let inst = label (codes "instance") s.config.label in
    record {
      sent = report_status inst status ++ emit_latencies inst s.prev status.latencies;
      after = record s { has_client = true; prev = some status.latencies };
      failed = false;
    }

unfoldable pub collect_instance : Answers → InstanceState → Attempt Emission InstanceState
collect_instance a s =
    let collected = with_status s a.status in
    if ensure_client a s then collected else record { sent = []; after = s; failed = true }

-- `Collect`; the client is reset by `collectInstance`.
unfoldable pub collect :
    ℕ → ℕ → List (Turn Answers InstanceState) → List Emission × List (Slot InstanceState)
unfolding collect_turns
collect retry_every now turns = collect_turns retry_every collect_instance (λ s. s) now turns

unfoldable pub new_collector : List Instance → List (Slot InstanceState)
new_collector instances =
    map (λ i. new_slot (record { config = i; has_client = false; prev = none })) instances

-- `Close`
unfoldable pub close : List (Slot InstanceState) → List (Slot InstanceState)
close slots =
    map (λ (s : Slot InstanceState). record s { state = record (s.state) { has_client = false } })
      slots
