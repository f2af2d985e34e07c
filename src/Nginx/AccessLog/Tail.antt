-- ===== src/Nginx/AccessLog/Tail.antt =====
-- internal/collectors/nginx/accesslog.go: `logTail`, which follows a file across rotation. What the
-- operating system answers during one call is the record `Answers`.
pub mod Chunks
pub mod Follow
pub mod Reads
pub mod Replay
use prostometrics_agent.Base.{
  ℕ, ◌+◌, ◌-◌, ◌*◌, ◌^◌, Bool, true, false, not, ◌&&◌, ◌||◌, List, [], ◌∷◌, ◌++◌, ◌≡◌, refl, Option,
  none, some, Bytes, if◌then◌else◌, ltb, ◌==◌, drop, length,
}
use prostometrics_agent.Text.Search.{trim_right_of}

abbrev pub max_bytes_per_tick : ℕ
max_bytes_per_tick = 8 * 2 ^ 20

abbrev pub max_line_bytes : ℕ
max_line_bytes = 64 * 2 ^ 10

abbrev pub newline : ℕ
newline = 10

abbrev pub carriage_return : ℕ
carriage_return = 13

-- `fileIdentity`: the device and the inode.
abbrev pub Identity : Type 0
Identity = ℕ × ℕ

-- `opened` is `t.file != nil`.
pub record LogTail : Type 0 where
  pub opened : Bool
  pub identity : Identity
  pub offset : ℕ
  pub partial : Bytes

-- `stat_path` is `os.Stat(t.path)`; `open_path` is `os.Open` and the `Stat` of the new handle, with
-- its size; `stat_file` is the size by `t.file.Stat()`; `content` is what the open file holds when
-- it is read.
pub record Answers : Type 0 where
  pub stat_path : Option Identity
  pub open_path : Option (Identity × ℕ)
  pub stat_file : Option ℕ
  pub seek_ok : Bool
  pub content : Bytes

pub data Outcome : Type 0 where
  lines_read : List Bytes → Outcome
  open_failed stat_failed seek_failed : Outcome

abbrev pub new_log_tail : LogTail
new_log_tail = record { opened = false; identity = (0, 0); offset = 0; partial = [] }

unfoldable pub close : LogTail → LogTail
close t = record t { opened = false }

unfoldable pub rotated : LogTail → Option Identity → Bool
rotated t none = true
rotated t (some (device, inode)) = not (device == t.identity.0) || not (inode == t.identity.1)

-- A first open starts at the end; any other starts at the beginning.
unfoldable pub open_new : LogTail → Option (Identity × ℕ) → LogTail × Bool
open_new t none = (t, false)
open_new t (some (identity, size)) = (
  record {
    opened = true;
    identity = identity;
    offset = if t.identity.1 == 0 then size else 0;
    partial = [];
  },
  true,
)

unfoldable pub ensure_open : LogTail → Answers → LogTail × Bool
ensure_open t a =
    if t.opened && not (rotated t a.stat_path) then (t, true) else open_new (close t) a.open_path

-- A fragment that grew too long is dropped.
unfoldable pub keep_partial : Bytes → Bytes
keep_partial partial = if ltb max_line_bytes (length partial) then [] else partial

abbrev pub add_line : Bytes → List Bytes → List Bytes
add_line [] lines = lines
add_line (c ∷ line) lines = (c ∷ line) ∷ lines

unfoldable pub trim_end : Bytes → Bytes
trim_end chunk = trim_right_of (carriage_return ∷ newline ∷ []) chunk

-- The loop over `ReadString('\n')`: the fragment so far, the chunk so far, and the bytes to come.
-- It returns the lines and the fragment that is left.
unfoldable pub read_chunks : Bytes → Bytes → Bytes → List Bytes × Bytes
read_chunks partial chunk [] = ([], keep_partial (partial ++ chunk))
read_chunks partial chunk (c ∷ s) =
    let done = read_chunks [] [] s in
    let more = read_chunks partial (chunk ++ c ∷ []) s in
    if c == newline then (add_line (partial ++ trim_end (chunk ++ c ∷ [])) done.0, done.1) else more

-- Truncation in place, and the bound on what one tick reads.
unfoldable pub rewind : ℕ → LogTail → LogTail
rewind size t = if ltb size t.offset then record t { offset = 0; partial = [] } else t

unfoldable pub skip_ahead : ℕ → LogTail → LogTail
skip_ahead size t =
    if ltb max_bytes_per_tick (size - t.offset)
    then record t { offset = size - max_bytes_per_tick; partial = [] }
    else t

unfoldable pub read_from : LogTail → Bytes → LogTail × Outcome
read_from t content =
    let unread = drop t.offset content in
    let (lines, partial) = read_chunks t.partial [] unread in
    (record t { offset = t.offset + length unread; partial = partial }, lines_read lines)

unfoldable pub read_sized : ℕ → LogTail → Answers → LogTail × Outcome
read_sized size t a =
    let t = rewind size t in
    if size == t.offset
    then (t, lines_read [])
    else if a.seek_ok
    then read_from (skip_ahead size t) a.content
    else (close (skip_ahead size t), seek_failed)

unfoldable pub read_opened : LogTail → Option ℕ → Answers → LogTail × Outcome
read_opened t none a = (close t, stat_failed)
read_opened t (some size) a = read_sized size t a

unfoldable pub read_new_lines : LogTail → Answers → LogTail × Outcome
read_new_lines t a =
    let (t', ok) = ensure_open t a in if ok then read_opened t' a.stat_file a else (t', open_failed)
