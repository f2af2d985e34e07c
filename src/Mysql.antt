-- ===== src/Mysql.antt =====
-- internal/collectors/mysql/collector.go. What the driver gives is an argument: whether the database
-- can be opened, and the result of each statement.
use prostometrics_agent.Base.{
  ℕ, Bool, true, false, ◌&&◌, List, [], ◌∷◌, ◌++◌, Option, none, some, Bytes, codes, if◌then◌else◌,
  map,
}
use prostometrics_agent.Base.Maps.{lookup, insert}
use prostometrics_agent.Floats.{Floats}
use prostometrics_agent.Metrics.{whole, Label, label, value_sparse}
use prostometrics_agent.Metrics.Reals.{
  read, Call, plain, value_sparse_real, total_real, at_least_zero,
}
use prostometrics_agent.Retry.{Slot, Attempt, Turn, new_slot, collect_turns}
use prostometrics_agent.Sql.{Rows, query_failed, rows}
use prostometrics_agent.Text.Case.{equal_fold}
use prostometrics_agent.Text.Space.{trim_space}

pub record Instance : Type 0 where
  pub dsn : Bytes
  pub label : Bytes

-- An instance with whether it has a handle of the driver.
pub record InstanceState : Type 0 where
  pub config : Instance
  pub has_db : Bool

-- The map, which is nil where `Scan` fails, and whether an error comes with it.
unfoldable pub read_pairs :
    List (Option (Bytes × Bytes)) → Bool → List (Bytes × Bytes) → List (Bytes × Bytes) × Bool
read_pairs [] err out = (out, err)
read_pairs (none ∷ rs) err out = ([], true)
read_pairs (some (name, v) ∷ rs) err out = read_pairs rs err (insert name v out)

unfoldable pub read_name_value_query : Rows (Bytes × Bytes) → List (Bytes × Bytes) × Bool
unfolding read_pairs
read_name_value_query query_failed = ([], true)
read_name_value_query (rows rs err) = read_pairs rs err []

-- A statement of which no row is read, for an error or for want of a row, and the columns of its row,
-- with none for NULL.
pub data SingleRow : Type 0 where
  unread : SingleRow
  columns : List (Bytes × Option Bytes) → SingleRow

abbrev set_cell : Bytes → Option Bytes → List (Bytes × Bytes) → List (Bytes × Bytes)
set_cell name none out = out
set_cell name (some v) out = insert name v out

unfoldable pub set_cells : List (Bytes × Option Bytes) → List (Bytes × Bytes) → List (Bytes × Bytes)
set_cells [] out = out
set_cells ((name, cell) ∷ cells) out = set_cells cells (set_cell name cell out)

unfoldable pub read_single_row : SingleRow → List (Bytes × Bytes)
unfolding set_cells
read_single_row unread = []
read_single_row (columns cells) = set_cells cells []

-- The columns of the first statement that gives any, none where `row` stays nil.
abbrev or_row : List (Bytes × Bytes) → Option (List (Bytes × Bytes)) → Option (List (Bytes × Bytes))
or_row [] next = next
or_row (c ∷ cs) next = some (c ∷ cs)

unfoldable pub replica_row : List SingleRow → Option (List (Bytes × Bytes))
replica_row [] = none
replica_row (r ∷ rs) = or_row (read_single_row r) (replica_row rs)

abbrev or_text : Option Bytes → Bytes → Bytes
or_text none next = next
or_text (some v) next = v

unfoldable pub first_of : List (Bytes × Bytes) → List Bytes → Bytes
first_of row [] = []
first_of row (key ∷ keys) = or_text (lookup key row) (first_of row keys)

abbrev both_running : List (Bytes × Bytes) → Bool
both_running row =
    equal_fold (first_of row (codes "Replica_IO_Running" ∷ codes "Slave_IO_Running" ∷ []))
      (codes "yes")
    && equal_fold (first_of row (codes "Replica_SQL_Running" ∷ codes "Slave_SQL_Running" ∷ []))
        (codes "yes")

module _ (fl : Floats) where
  open fl use {F, parse_float}

  abbrev number_of : Option Bytes → Option F
  number_of none = none
  number_of (some raw) = parse_float (trim_space raw)

  unfoldable pub numeric : List (Bytes × Bytes) → Bytes → Option F
  numeric source key = number_of (lookup key source)

  abbrev each : (F → Call F) → Option F → List (Call F)
  each f none = []
  each f (some v) = f v ∷ []

  abbrev lag : Label → F → Call F
  lag inst v = value_sparse_real (codes "mysql.replica_lag_sec") (at_least_zero fl v) (inst ∷ [])

  abbrev or_lag : Label → Option F → List (Call F) → List (Call F)
  or_lag inst none next = next
  or_lag inst (some v) next = lag inst v ∷ []

  -- The lag under the first name whose value is a number.
  unfoldable pub replica_lag : Label → List (Bytes × Bytes) → List Bytes → List (Call F)
  replica_lag inst row [] = []
  replica_lag inst row (key ∷ keys) = or_lag inst (numeric row key) (replica_lag inst row keys)

  abbrev pub replica_running : Label → List (Bytes × Bytes) → Call F
  replica_running inst row = plain (
      value_sparse (codes "mysql.replica_running") (whole (if both_running row then 1 else 0))
        (inst ∷ []))

  abbrev report_replica : Label → Option (List (Bytes × Bytes)) → List (Call F)
  report_replica inst none = []
  report_replica inst (some row) =
      replica_lag inst row (codes "Seconds_Behind_Source" ∷ codes "Seconds_Behind_Master" ∷ [])
      ++ replica_running inst row ∷ []

  -- The answers to the two statements, in the order in which they are tried.
  unfoldable pub collect_replication : Label → List SingleRow → List (Call F)
  unfolding replica_lag
  collect_replication inst answers = report_replica inst (replica_row answers)

  abbrev emit_value : Label → Bytes → Bytes → List (Bytes × Bytes) → List Label → List (Call F)
  emit_value inst metric key source labels =
      each (λ v. value_sparse_real metric (read v) (inst ∷ labels)) (numeric source key)

  abbrev emit_total : Label → List (Bytes × Bytes) → Bytes → Bytes → List Label → List (Call F)
  emit_total inst status metric key labels =
      each (λ v. total_real metric (read v) (inst ∷ labels)) (numeric status key)

  unfoldable pub report_status : Label → List (Bytes × Bytes) → List (Bytes × Bytes) → List (Call F)
  report_status inst status variables =
      let conns = codes "mysql.connections" in
      let reads = codes "mysql.innodb_reads_count" in
      let rows_count = codes "mysql.rows_count" in
      let aborted = codes "mysql.aborted_count" in
      let typ = λ (t : Bytes). label (codes "type") t ∷ [] in
      let op = λ (t : Bytes). label (codes "op") t ∷ [] in
      emit_value inst conns (codes "Threads_connected") status (typ (codes "connected"))
      ++ emit_value inst conns (codes "Threads_running") status (typ (codes "running"))
      ++ emit_value inst conns (codes "max_connections") variables (typ (codes "max"))
      ++ emit_total inst status (codes "mysql.queries_count") (codes "Queries") []
      ++ emit_total inst status (codes "mysql.slow_queries_count") (codes "Slow_queries") []
      ++ emit_total inst status reads (codes "Innodb_buffer_pool_read_requests")
          (typ (codes "buffer_pool"))
      ++ emit_total inst status reads (codes "Innodb_buffer_pool_reads") (typ (codes "disk"))
      ++ emit_total inst status rows_count (codes "Innodb_rows_read") (op (codes "read"))
      ++ emit_total inst status rows_count (codes "Innodb_rows_inserted") (op (codes "inserted"))
      ++ emit_total inst status rows_count (codes "Innodb_rows_updated") (op (codes "updated"))
      ++ emit_total inst status rows_count (codes "Innodb_rows_deleted") (op (codes "deleted"))
      ++ emit_total inst status aborted (codes "Aborted_clients") (typ (codes "clients"))
      ++ emit_total inst status aborted (codes "Aborted_connects") (typ (codes "connects"))
      ++ emit_total inst status (codes "mysql.table_locks_waited_count")
          (codes "Table_locks_waited") []
      ++ emit_total inst status (codes "mysql.tmp_disk_tables_count")
          (codes "Created_tmp_disk_tables") []

  pub record Answers : Type 0 where
    pub opens : Bool
    pub status : Rows (Bytes × Bytes)
    pub variables : Rows (Bytes × Bytes)
    pub replica : List SingleRow

  abbrev pub ensure_db : Answers → InstanceState → Bool
  ensure_db a s = if s.has_db then true else a.opens

  -- An error of the variables is passed over, whatever was read of them.
  abbrev pub after_status :
      Answers → InstanceState → List (Bytes × Bytes) × Bool → Attempt (Call F) InstanceState
  after_status a s (status, failed) =
      let inst = label (codes "instance") s.config.label in
      let sent =
        report_status inst status (read_name_value_query a.variables).0
        ++ collect_replication inst a.replica in
      record {
        sent = if failed then [] else sent;
        after = record s { has_db = true };
        failed = failed;
      }

  unfoldable pub collect_instance : Answers → InstanceState → Attempt (Call F) InstanceState
  collect_instance a s =
      let collected = after_status a s (read_name_value_query a.status) in
      if ensure_db a s then collected else record { sent = []; after = s; failed = true }

  abbrev pub reset_db : InstanceState → InstanceState
  reset_db s = record s { has_db = false }

  unfoldable pub collect :
      ℕ → ℕ → List (Turn Answers InstanceState) → List (Call F) × List (Slot InstanceState)
  unfolding collect_turns
  collect retry_every now turns = collect_turns retry_every collect_instance reset_db now turns

unfoldable pub new_collector : List Instance → List (Slot InstanceState)
new_collector instances = map (λ i. new_slot (record { config = i; has_db = false })) instances

-- `Close`
unfoldable pub close : List (Slot InstanceState) → List (Slot InstanceState)
close slots =
    map (λ (s : Slot InstanceState). record s { state = record (s.state) { has_db = false } }) slots
