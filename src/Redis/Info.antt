-- ===== src/Redis/Info.antt =====
-- internal/collectors/redis/resp.go and collector.go: `parseInfo`, `infoUint`, `countKeys`, and what
-- `collectInstance` reports of an answer to INFO.
pub mod Keys
use prostometrics_agent.Base.{
  ℕ, zero, suc, ◌+◌, ◌%◌, ◌^◌, Bool, true, false, ◌&&◌, ◌||◌, List, [], ◌∷◌, ◌++◌, Option, none,
  some, Bytes, codes, if◌then◌else◌, ◌===◌, ltb,
}
use prostometrics_agent.Base.Integers.{ℤ, pos_part}
use prostometrics_agent.Base.Maps.{lookup, insert}
use prostometrics_agent.Floats.{Floats}
use prostometrics_agent.Metrics.{
  Reading, whole, kilo, share, seconds, Label, label, Emission, value, value_sparse, total,
}
use prostometrics_agent.Text.Case.{equal_fold}
use prostometrics_agent.Text.Number.{parse_uint}
use prostometrics_agent.Text.Search.{has_prefix, split, cut}
use prostometrics_agent.Text.Space.{trim_space}

abbrev info_pair : Option (Bytes × Bytes) → List (Bytes × Bytes) → List (Bytes × Bytes)
info_pair none out = out
info_pair (some (key, v)) out = insert (trim_space key) (trim_space v) out

abbrev info_line : Bytes → List (Bytes × Bytes) → List (Bytes × Bytes)
info_line line out =
    if (line === []) || has_prefix line (codes "#") then out else info_pair (cut line b':') out

unfoldable pub parse_lines : List Bytes → List (Bytes × Bytes) → List (Bytes × Bytes)
parse_lines [] out = out
parse_lines (raw ∷ lines) out = parse_lines lines (info_line (trim_space raw) out)

unfoldable pub parse_info : Bytes → List (Bytes × Bytes)
parse_info raw = parse_lines (split raw 10) []

-- `total += v`, with the wrap-around of a uint64.
abbrev add_uint : ℕ → ℕ × Bool → ℕ
add_uint n (v, ok) = if ok then (n + v) % 2 ^ 64 else n

abbrev add_part : ℕ → Option (Bytes × Bytes) → ℕ
add_part n none = n
add_part n (some (name, raw)) = if name === codes "keys" then add_uint n (parse_uint raw) else n

unfoldable pub count_parts : ℕ → List Bytes → ℕ
count_parts n [] = n
count_parts n (part ∷ parts) = count_parts (add_part n (cut part b'=')) parts

abbrev pub count_database : ℕ → Bytes × Bytes → ℕ
count_database n (key, v) = if has_prefix key (codes "db") then count_parts n (split v b',') else n

unfoldable pub count_from : ℕ → List (Bytes × Bytes) → ℕ
count_from n [] = n
count_from n (entry ∷ info) = count_from (count_database n entry) info

unfoldable pub count_keys : List (Bytes × Bytes) → ℕ
count_keys info = count_from 0 info

abbrev pub text_of : List (Bytes × Bytes) → Bytes → Bytes
text_of info key = elim (lookup key info) [ none ↦ [] | some v ↦ v ]

module _ (fl : Floats) where
  open fl use {parse_float, is_negative, to_uint}

  abbrev uint_of : Option Bytes → Option ℕ
  uint_of none = none
  uint_of (some raw) = elim (parse_float raw) [
    | none ↦ none
    | some v ↦ if is_negative v then none else some (to_uint v)
  ]

  unfoldable pub info_uint : List (Bytes × Bytes) → Bytes → Option ℕ
  info_uint info key = uint_of (lookup key info)

  abbrev emit : (ℕ → Emission) → Option ℕ → List Emission
  emit f none = []
  emit f (some v) = f v ∷ []

  abbrev or_zero : Option ℕ → ℕ
  or_zero none = 0
  or_zero (some v) = v

  abbrev memory : Label → Bytes → ℕ → Emission
  memory inst typ v =
      value_sparse (codes "redis.memory_kb") (kilo v) (inst ∷ label (codes "type") typ ∷ [])

  abbrev clients : Label → Bytes → ℕ → Emission
  clients inst typ v =
      value_sparse (codes "redis.clients") (whole v) (inst ∷ label (codes "type") typ ∷ [])

  abbrev counted : Label → Bytes → List Label → ℕ → Emission
  counted inst metric labels v = total metric (whole v) (inst ∷ labels)

  abbrev pub memory_share : Label → ℕ → ℕ → List Emission
  memory_share inst used max_memory =
      if ltb 0 max_memory && ltb 0 used
      then value (codes "redis.memory_used_pct") (share used max_memory) (inst ∷ []) ∷ []
      else []

  -- `since` gives the nanoseconds that have passed since a Unix time, by the clock.
  abbrev save_age : Label → (ℕ → ℤ) → Option ℕ → List Emission
  save_age inst since none = []
  save_age inst since (some zero) = []
  save_age inst since (some (suc v)) =
      value_sparse (codes "redis.last_save_age_sec") (seconds (pos_part (since (suc v))))
        (inst ∷ [])
      ∷ []

  abbrev replica : Label → List (Bytes × Bytes) → List Emission
  replica inst info =
      if equal_fold (text_of info (codes "role")) (codes "slave")
      then value_sparse (codes "redis.replica_link_up")
          (whole
            (if equal_fold (text_of info (codes "master_link_status")) (codes "up") then 1 else 0))
          (inst ∷ [])
        ∷ emit (λ v. value_sparse (codes "redis.replica_lag_sec") (whole v) (inst ∷ []))
            (info_uint info (codes "master_last_io_seconds_ago"))
      else []

  abbrev totals : Label → List (Bytes × Bytes) → List Emission
  totals inst info =
      emit (counted inst (codes "redis.keyspace_count") (label (codes "type") (codes "hits") ∷ []))
        (info_uint info (codes "keyspace_hits"))
      ++ emit
          (counted inst (codes "redis.keyspace_count") (label (codes "type") (codes "misses") ∷ []))
          (info_uint info (codes "keyspace_misses"))
      ++ emit (counted inst (codes "redis.evicted_keys_count") [])
          (info_uint info (codes "evicted_keys"))
      ++ emit (counted inst (codes "redis.expired_keys_count") [])
          (info_uint info (codes "expired_keys"))
      ++ emit (counted inst (codes "redis.commands_count") [])
          (info_uint info (codes "total_commands_processed"))
      ++ emit
          (counted inst (codes "redis.connections_count")
            (label (codes "type") (codes "received") ∷ []))
          (info_uint info (codes "total_connections_received"))
      ++ emit
          (counted inst (codes "redis.connections_count")
            (label (codes "type") (codes "rejected") ∷ []))
          (info_uint info (codes "rejected_connections"))

  -- What is reported of the memory, and then of all else.
  unfoldable pub report_memory : Label → List (Bytes × Bytes) → List Emission
  report_memory inst info =
      let used = info_uint info (codes "used_memory") in
      let max_memory = info_uint info (codes "maxmemory") in
      emit (memory inst (codes "used")) used
      ++ emit (memory inst (codes "peak")) (info_uint info (codes "used_memory_peak"))
      ++ emit (memory inst (codes "rss")) (info_uint info (codes "used_memory_rss"))
      ++ emit (memory inst (codes "max")) max_memory
      ++ memory_share inst (or_zero used) (or_zero max_memory)

  unfoldable pub report_info : Bytes → (ℕ → ℤ) → Bytes → List Emission
  report_info name since raw =
      let info = parse_info raw in
      let inst = label (codes "instance") name in
      report_memory inst info
      ++ emit (clients inst (codes "connected")) (info_uint info (codes "connected_clients"))
      ++ emit (clients inst (codes "blocked")) (info_uint info (codes "blocked_clients"))
      ++ totals inst info
      ++ (value_sparse (codes "redis.keys_count") (whole (count_keys info)) (inst ∷ []) ∷ [])
      ++ emit (λ v. value_sparse (codes "redis.unsaved_changes") (whole v) (inst ∷ []))
          (info_uint info (codes "rdb_changes_since_last_save"))
      ++ save_age inst since (info_uint info (codes "rdb_last_save_time"))
      ++ replica inst info
