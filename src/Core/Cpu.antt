-- ===== src/Core/Cpu.antt =====
-- internal/collectors/core/cpu_usage.go and cpu_times_linux.go.
pub mod Shares
use prostometrics_agent.Base.{
  ℕ, zero, suc, ◌+◌, ◌^◌, ◌%◌, Bool, true, false, not, ◌&&◌, List, [], ◌∷◌, ◌++◌, Option, none,
  some, Bytes, codes, if◌then◌else◌, ◌==◌, ◌===◌, leb, ltb, get_or, length, map, take, drop,
}
use prostometrics_agent.Base.Maps.{lookup, insert, has_key}
use prostometrics_agent.Core.Counters.{diff_uint}
use prostometrics_agent.Metrics.{Reading, percent, Label, label, Emission, value}
use prostometrics_agent.Text.Number as Number
use prostometrics_agent.Text.Search.{has_prefix, trim_prefix}
use prostometrics_agent.Text.Space.{trim_space, fields}

pub record CpuTimes : Type 0 where
  pub user : ℕ
  pub nice : ℕ
  pub system : ℕ
  pub idle : ℕ
  pub iowait : ℕ
  pub irq : ℕ
  pub softirq : ℕ
  pub steal : ℕ
  pub guest : ℕ
  pub guest_nice : ℕ

-- A number that cannot be read counts as 0, and so does one that is not there.
abbrev number_or_zero : ℕ × Bool → ℕ
number_or_zero (n, ok) = if ok then n else 0

abbrev time_at : List Bytes → ℕ → ℕ
time_at fs i =
    if ltb i (length fs)
    then number_or_zero (Number.parse_uint (trim_space (get_or fs i [])))
    else 0

abbrev times_of : List Bytes → CpuTimes
times_of fs = record {
  user = time_at fs 1;
  nice = time_at fs 2;
  system = time_at fs 3;
  idle = time_at fs 4;
  iowait = time_at fs 5;
  irq = time_at fs 6;
  softirq = time_at fs 7;
  steal = time_at fs 8;
  guest = time_at fs 9;
  guest_nice = time_at fs 10;
}

abbrev times_line : Bytes → List (Bytes × CpuTimes) → List (Bytes × CpuTimes)
times_line line result =
    let fs = fields line in
    if has_prefix line (codes "cpu") && leb 5 (length fs)
    then insert (get_or fs 0 []) (times_of fs) result
    else result

unfoldable pub read_times_lines : List Bytes → List (Bytes × CpuTimes) → List (Bytes × CpuTimes)
read_times_lines [] result = result
read_times_lines (line ∷ lines) result = read_times_lines lines (times_line line result)

-- A map without the aggregate, and so an empty one, is an error.
unfoldable pub read_cpu_times : List Bytes → Option (List (Bytes × CpuTimes))
read_cpu_times lines =
    let result = read_times_lines lines [] in
    if has_key (codes "cpu") result then some result else none

unfoldable pub normalize_cpu_name : Bytes → Bytes
normalize_cpu_name raw = if raw === codes "cpu" then codes "all" else trim_prefix raw (codes "cpu")

-- The eight deltas of the modes that are reported.
pub record CpuDeltas : Type 0 where
  pub user : ℕ
  pub nice : ℕ
  pub system : ℕ
  pub idle : ℕ
  pub iowait : ℕ
  pub irq : ℕ
  pub softirq : ℕ
  pub steal : ℕ

abbrev pub deltas : CpuTimes → CpuTimes → CpuDeltas
deltas prev cur = record {
  user = diff_uint prev.user cur.user;
  nice = diff_uint prev.nice cur.nice;
  system = diff_uint prev.system cur.system;
  idle = diff_uint prev.idle cur.idle;
  iowait = diff_uint prev.iowait cur.iowait;
  irq = diff_uint prev.irq cur.irq;
  softirq = diff_uint prev.softirq cur.softirq;
  steal = diff_uint prev.steal cur.steal;
}

-- `deltaTotal`, as a uint64 that wraps.
abbrev pub delta_total : CpuDeltas → ℕ
delta_total d =
    (d.user + d.nice + d.system + d.idle + d.iowait + d.irq + d.softirq + d.steal) % 2 ^ 64

-- `emit`
abbrev pub emit : Bytes → ℕ → Bytes → ℕ → List Emission
emit name whole mode delta =
    if delta == 0
    then []
    else value (codes "host.cpu.usage_pct") (percent delta whole 1)
        (label (codes "cpu") (normalize_cpu_name name) ∷ label (codes "mode") mode ∷ [])
      ∷ []

abbrev pub emit_all : Bytes → ℕ → CpuDeltas → List Emission
emit_all name whole d =
    emit name whole (codes "user") d.user
    ++ emit name whole (codes "nice") d.nice
    ++ emit name whole (codes "system") d.system
    ++ emit name whole (codes "idle") d.idle
    ++ emit name whole (codes "iowait") d.iowait
    ++ emit name whole (codes "irq") d.irq
    ++ emit name whole (codes "softirq") d.softirq
    ++ emit name whole (codes "steal") d.steal

-- Nothing is sent of deltas that add up to 0.
abbrev pub emit_deltas : Bytes → CpuDeltas → List Emission
emit_deltas name d =
    let sent = emit_all name (delta_total d) d in if delta_total d == 0 then [] else sent

abbrev pub shares : Bytes → Option CpuTimes → CpuTimes → List Emission
shares name none cur = []
shares name (some prev) cur = emit_deltas name (deltas prev cur)

-- The loop over a snapshot.
unfoldable pub collect_cpus :
    List (Bytes × CpuTimes) → List (Bytes × CpuTimes) → List Emission × List (Bytes × CpuTimes)
collect_cpus [] prev = ([], prev)
collect_cpus ((name, cur) ∷ snapshot) prev =
    let skip = collect_cpus snapshot prev in
    let rest = collect_cpus snapshot (insert name cur prev) in
    if name === codes "cpu" then skip else (shares name (lookup name prev) cur ++ rest.0, rest.1)

-- `Collect`, with the snapshot that was read, or none if it could not be.
unfoldable pub collect :
    Option (List (Bytes × CpuTimes))
    → List (Bytes × CpuTimes)
    → List Emission × List (Bytes × CpuTimes)
collect none prev = ([], prev)
collect (some snapshot) prev = collect_cpus snapshot prev
