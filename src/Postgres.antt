-- ===== src/Postgres.antt =====
-- internal/collectors/postgres/collector.go. What the driver gives is an argument: whether it
-- connects, and the result of each query; a row of `pg_stat_database` is a record.
pub mod Connections
use prostometrics_agent.Base.{
  ℕ, ◌+◌, Bool, true, false, not, ◌&&◌, List, [], ◌∷◌, ◌++◌, Option, none, some, Bytes, codes,
  if◌then◌else◌, ◌==◌, ◌===◌, map,
}
use prostometrics_agent.Base.Integers.{ℤ, pos, negsuc}
use prostometrics_agent.Base.Maps.{insert}
use prostometrics_agent.Floats.{Floats}
use prostometrics_agent.Metrics.{
  whole, kilo, integer, Label, label, Emission, value_sparse, total, unless_negative,
}
use prostometrics_agent.Metrics.Reals.{Call, plain, value_sparse_real, plains, at_least_zero}
use prostometrics_agent.Retry.{Slot, Attempt, Turn, new_slot, collect_turns}
use prostometrics_agent.Sql.{Rows, query_failed, rows}
use prostometrics_agent.Text.Space.{trim_space}

-- The `LIMIT` of the two queries over databases.
abbrev pub max_databases : ℕ
max_databases = 20

pub record Instance : Type 0 where
  pub uri : Bytes
  pub label : Bytes

-- An instance with whether it has a connection.
pub record InstanceState : Type 0 where
  pub config : Instance
  pub has_conn : Bool

pub record DatabaseRow : Type 0 where
  pub name : Bytes
  pub commit : ℤ
  pub rollback : ℤ
  pub blks_read : ℤ
  pub blks_hit : ℤ
  pub returned : ℤ
  pub fetched : ℤ
  pub inserted : ℤ
  pub updated : ℤ
  pub deleted : ℤ
  pub deadlocks : ℤ
  pub temp_files : ℤ

abbrev emit : Label → Bytes → Bytes → ℤ → List Label → List Emission
emit inst db metric v labels =
    unless_negative (λ n. total metric (whole n) (inst ∷ label (codes "db") db ∷ labels)) v

unfoldable pub report_database : Label → DatabaseRow → List Emission
report_database inst r =
    let transactions = codes "postgres.transactions_count" in
    let blocks = codes "postgres.blocks_count" in
    let tuples = codes "postgres.tuples_count" in
    let typ = λ (t : Bytes). label (codes "type") t ∷ [] in
    let op = λ (t : Bytes). label (codes "op") t ∷ [] in
    emit inst r.name transactions r.commit (typ (codes "commit"))
    ++ emit inst r.name transactions r.rollback (typ (codes "rollback"))
    ++ emit inst r.name blocks r.blks_read (typ (codes "read"))
    ++ emit inst r.name blocks r.blks_hit (typ (codes "hit"))
    ++ emit inst r.name tuples r.returned (op (codes "returned"))
    ++ emit inst r.name tuples r.fetched (op (codes "fetched"))
    ++ emit inst r.name tuples r.inserted (op (codes "inserted"))
    ++ emit inst r.name tuples r.updated (op (codes "updated"))
    ++ emit inst r.name tuples r.deleted (op (codes "deleted"))
    ++ emit inst r.name (codes "postgres.deadlocks_count") r.deadlocks []
    ++ emit inst r.name (codes "postgres.temp_files_count") r.temp_files []

abbrev after_database : List Emission → List Emission × Bool → List Emission × Bool
after_database sent (more, failed) = (sent ++ more, failed)

-- What is sent, and whether the rows were not read to their end.
unfoldable pub report_databases : Label → List (Option DatabaseRow) → Bool → List Emission × Bool
report_databases inst [] err = (([]), err)
report_databases inst (none ∷ rs) err = ([], true)
report_databases inst (some r ∷ rs) err =
    after_database (report_database inst r) (report_databases inst rs err)

unfoldable pub collect_database_stats : Label → Rows DatabaseRow → List Emission × Bool
unfolding report_databases
collect_database_stats inst query_failed = ([], true)
collect_database_stats inst (rows rs err) = report_databases inst rs err

-- `strings.ReplaceAll(s, " ", "_")`
abbrev pub underscored : Bytes → Bytes
underscored = map λ c. if c == b' ' then b'_' else c

unfoldable pub normalize_state_label : Bytes → Bytes
normalize_state_label state =
    if state === codes "idle in transaction"
    then codes "idle_in_transaction"
    else if state === codes "idle in transaction (aborted)"
    then codes "idle_in_transaction_aborted"
    else underscored (trim_space state)

abbrev pub seeded_states : List (Bytes × ℤ)
seeded_states =
    (codes "active", pos 0)
    ∷ (codes "idle", pos 0)
    ∷ (codes "idle in transaction", pos 0)
    ∷ (codes "idle in transaction (aborted)", pos 0)
    ∷ []

-- The states with their counts, and none if the rows were not all read.
unfoldable pub count_states :
    List (Option (Bytes × ℤ)) → Bool → List (Bytes × ℤ) → Option (List (Bytes × ℤ))
count_states [] err states = if err then none else some states
count_states (none ∷ rs) err states = none
count_states (some (state, count) ∷ rs) err states = count_states rs err (insert state count states)

abbrev pub connections : Label → Bytes × ℤ → Emission
connections inst (state, count) =
    value_sparse (codes "postgres.connections") (integer count)
      (inst ∷ label (codes "state") (normalize_state_label state) ∷ [])

-- The answer to the query for `max_connections`, none if it fails.
abbrev max_connections : Label → Option ℤ → List Emission
max_connections inst none = []
max_connections inst (some (negsuc n)) = []
max_connections inst (some (pos n)) =
    if n == 0
    then []
    else value_sparse (codes "postgres.connections") (whole n)
        (inst ∷ label (codes "state") (codes "max") ∷ [])
      ∷ []

abbrev pub report_states : Label → Option ℤ → Option (List (Bytes × ℤ)) → List Emission
report_states inst limit none = []
report_states inst limit (some states) = map (connections inst) states ++ max_connections inst limit

unfoldable pub collect_connections : Label → Rows (Bytes × ℤ) → Option ℤ → List Emission
collect_connections inst query_failed limit = []
collect_connections inst (rows rs err) limit =
    report_states inst limit (count_states rs err seeded_states)

abbrev size : Label → Bytes → ℤ → List Emission
size inst db =
    unless_negative
      λ n. value_sparse (codes "postgres.db_size_kb") (kilo n) (inst ∷ label (codes "db") db ∷ [])

unfoldable pub report_sizes : Label → List (Option (Bytes × ℤ)) → List Emission
report_sizes inst [] = []
report_sizes inst (none ∷ rs) = []
report_sizes inst (some (db, n) ∷ rs) = size inst db n ++ report_sizes inst rs

unfoldable pub collect_sizes : Label → Rows (Bytes × ℤ) → List Emission
unfolding report_sizes
collect_sizes inst query_failed = []
collect_sizes inst (rows rs err) = report_sizes inst rs

abbrev pub collect_locks : Label → Option ℤ → List Emission
collect_locks inst none = []
collect_locks inst (some n) =
    value_sparse (codes "postgres.locks_waiting") (integer n) (inst ∷ []) ∷ []

module _ (fl : Floats) where
  open fl use {F}

  abbrev at_least_zero_call : Label → Bytes → Option F → List (Call F)
  at_least_zero_call inst metric none = []
  at_least_zero_call inst metric (some v) =
      value_sparse_real metric (at_least_zero fl v) (inst ∷ []) ∷ []

  abbrev pub collect_activity : Label → Option F → List (Call F)
  collect_activity inst = at_least_zero_call inst (codes "postgres.longest_transaction_sec")

  -- Whether the server is in recovery, none if that query fails, and the lag.
  abbrev pub collect_replication : Label → Option Bool → Option F → List (Call F)
  collect_replication inst none lag = []
  collect_replication inst (some false) lag = []
  collect_replication inst (some true) lag =
      at_least_zero_call inst (codes "postgres.replica_lag_sec") lag

  pub record Answers : Type 0 where
    pub is_closed : Bool
    pub connects : Bool
    pub databases : Rows DatabaseRow
    pub states : Rows (Bytes × ℤ)
    pub limit : Option ℤ
    pub longest : Option F
    pub waiting : Option ℤ
    pub in_recovery : Option Bool
    pub lag : Option F
    pub sizes : Rows (Bytes × ℤ)

  -- Whether there is a connection to go on with.
  abbrev pub ensure_conn : Answers → InstanceState → Bool
  ensure_conn a s = if s.has_conn && not a.is_closed then true else a.connects

  abbrev the_rest : Label → Answers → List (Call F)
  the_rest inst a =
      plains (collect_connections inst a.states a.limit)
      ++ collect_activity inst a.longest
      ++ plains (collect_locks inst a.waiting)
      ++ collect_replication inst a.in_recovery a.lag
      ++ plains (collect_sizes inst a.sizes)

  abbrev after_stats :
      Answers → InstanceState → List Emission × Bool → Attempt (Call F) InstanceState
  after_stats a s (sent, failed) =
      let all = plains sent ++ the_rest (label (codes "instance") s.config.label) a in
      record {
        sent = if failed then plains sent else all;
        after = record s { has_conn = true };
        failed = failed;
      }

  unfoldable pub collect_instance : Answers → InstanceState → Attempt (Call F) InstanceState
  collect_instance a s =
      let inst = label (codes "instance") s.config.label in
      let collected = after_stats a s (collect_database_stats inst a.databases) in
      if ensure_conn a s then collected else record { sent = []; after = s; failed = true }

  abbrev pub reset_conn : InstanceState → InstanceState
  reset_conn s = record s { has_conn = false }

  unfoldable pub collect :
      ℕ → ℕ → List (Turn Answers InstanceState) → List (Call F) × List (Slot InstanceState)
  unfolding collect_turns
  collect retry_every now turns = collect_turns retry_every collect_instance reset_conn now turns

unfoldable pub new_collector : List Instance → List (Slot InstanceState)
new_collector instances = map (λ i. new_slot (record { config = i; has_conn = false })) instances

-- `Close`
unfoldable pub close : List (Slot InstanceState) → List (Slot InstanceState)
close slots =
    map (λ (s : Slot InstanceState). record s { state = record (s.state) { has_conn = false } })
      slots
