-- ===== src/Core/Disk.antt =====
-- internal/collectors/core/diskio.go.
pub mod Kept
use prostometrics_agent.Base.{
  ℕ, ◌+◌, ◌*◌, ◌^◌, ◌%◌, Bool, true, false, ◌&&◌, ◌||◌, List, [], ◌∷◌, ◌++◌, Option, none, some,
  Bytes, codes, if◌then◌else◌, ◌==◌, leb, is_some, get_or, length,
}
use prostometrics_agent.Base.Maps.{lookup, insert, has_key, keep_keys}
use prostometrics_agent.Core.Counters.{parse_uint, diff_uint}
use prostometrics_agent.Metrics.{Reading, whole, kilo, ratio, Label, label, Emission, value, total}
use prostometrics_agent.Text.Search.{has_prefix, index_byte}
use prostometrics_agent.Text.Space.{trim_space, fields}

pub record DiskIoStats : Type 0 where
  pub read_bytes : ℕ
  pub write_bytes : ℕ
  pub read_ops : ℕ
  pub write_ops : ℕ
  pub read_time_ms : ℕ
  pub write_time_ms : ℕ
  pub io_time_ms : ℕ

abbrev pub is_digit : ℕ → Bool
is_digit c = leb b'0' c && leb c b'9'

unfoldable pub has_trailing_digit : Bytes → Bool
has_trailing_digit [] = false
has_trailing_digit (c ∷ []) = is_digit c
has_trailing_digit (c ∷ d ∷ s) = has_trailing_digit (d ∷ s)

unfoldable pub skip_disk_device : Bytes → Bool
skip_disk_device dev =
    has_prefix dev (codes "loop")
    || has_prefix dev (codes "ram")
    || has_prefix dev (codes "dm-")
    || ((has_prefix dev (codes "sd") || has_prefix dev (codes "vd") || has_prefix dev (codes "xvd"))
        && has_trailing_digit dev)
    || (has_prefix dev (codes "nvme") && is_some (index_byte dev b'p'))

-- The field at a position, of a line that has enough of them.
abbrev number_at : List Bytes → ℕ → ℕ
number_at fs i = parse_uint (get_or fs i [])

abbrev sector_bytes : ℕ → ℕ
sector_bytes sectors = (sectors * 512) % 2 ^ 64

abbrev stats_of : List Bytes → DiskIoStats
stats_of fs = record {
  read_bytes = sector_bytes (number_at fs 5);
  write_bytes = sector_bytes (number_at fs 9);
  read_ops = number_at fs 3;
  write_ops = number_at fs 7;
  read_time_ms = number_at fs 6;
  write_time_ms = number_at fs 10;
  io_time_ms = number_at fs 12;
}

abbrev disk_line : List Bytes → List (Bytes × DiskIoStats) → List (Bytes × DiskIoStats)
disk_line fs stats =
    let dev = get_or fs 2 [] in
    if leb 14 (length fs)
    then (if skip_disk_device dev then stats else insert dev (stats_of fs) stats)
    else stats

unfoldable pub read_disk_lines :
    List Bytes → List (Bytes × DiskIoStats) → List (Bytes × DiskIoStats)
read_disk_lines [] stats = stats
read_disk_lines (line ∷ lines) stats =
    read_disk_lines lines (disk_line (fields (trim_space line)) stats)

-- The average time of a request, as a number of milliseconds over one of operations, each sum a
-- uint64.
unfoldable pub disk_io_latency_ms : DiskIoStats → DiskIoStats → Option Reading
disk_io_latency_ms prev cur =
    let ops =
      (diff_uint prev.read_ops cur.read_ops + diff_uint prev.write_ops cur.write_ops) % 2 ^ 64 in
    let elapsed =
      (diff_uint prev.read_time_ms cur.read_time_ms
        + diff_uint prev.write_time_ms cur.write_time_ms)
      % 2 ^ 64 in
    if ops == 0 then none else some (ratio elapsed ops)

abbrev latency_of : Bytes → Option Reading → List Emission
latency_of dev none = []
latency_of dev (some r) =
    value (codes "host.disk.io_latency_ms") r (label (codes "device") dev ∷ []) ∷ []

abbrev since_prev : Bytes → Option DiskIoStats → DiskIoStats → List Emission
since_prev dev none cur = []
since_prev dev (some prev) cur = latency_of dev (disk_io_latency_ms prev cur)

abbrev counted : Bytes → DiskIoStats → List Emission
counted dev cur =
    let device = label (codes "device") dev in
    let read = label (codes "dir") (codes "read") in
    let write = label (codes "dir") (codes "write") in
    total (codes "host.disk.io_kb") (kilo cur.read_bytes) (device ∷ read ∷ [])
    ∷ total (codes "host.disk.io_kb") (kilo cur.write_bytes) (device ∷ write ∷ [])
    ∷ total (codes "host.disk.io_ops") (whole cur.read_ops) (device ∷ read ∷ [])
    ∷ total (codes "host.disk.io_ops") (whole cur.write_ops) (device ∷ write ∷ [])
    ∷ total (codes "host.disk.io_time_ms") (whole cur.io_time_ms) (device ∷ [])
    ∷ []

-- The loop over the devices of a snapshot, with the map of the previous readings.
unfoldable pub collect_devices :
    List (Bytes × DiskIoStats)
    → List (Bytes × DiskIoStats)
    → List Emission × List (Bytes × DiskIoStats)
collect_devices [] prev = ([], prev)
collect_devices ((dev, cur) ∷ snapshot) prev =
    let rest = collect_devices snapshot (insert dev cur prev) in
    (counted dev cur ++ since_prev dev (lookup dev prev) cur ++ rest.0, rest.1)

abbrev pub in_snapshot : List (Bytes × DiskIoStats) → Bytes → Bool
in_snapshot snapshot dev = has_key dev snapshot

-- `Collect`, with the snapshot that was read, or none if it could not be.
unfoldable pub collect :
    Option (List (Bytes × DiskIoStats))
    → List (Bytes × DiskIoStats)
    → List Emission × List (Bytes × DiskIoStats)
collect none prev = ([], prev)
collect (some snapshot) prev =
    let r = collect_devices snapshot prev in (r.0, keep_keys (in_snapshot snapshot) r.1)
