-- ===== src/Nginx/AccessLog/Tail/Replay.antt =====
-- What a file that is opened again by `ensureOpen` is read from.
use prostometrics_agent.Base.{
  ℕ, ◌≤◌, true, false, [], ◌++◌, ◌≡◌, ◌≢◌, refl, ap, ◌∙◌, arith, Bytes, ◌⊎◌, length, drop, Lacks,
  Option, none, some,
}
use prostometrics_agent.Nginx.AccessLog.Tail.{
  LogTail, Answers, lines_read, Identity, close, rotated, open_new, ensure_open, read_chunks,
  rewind, skip_ahead, read_sized, read_opened, read_new_lines, max_bytes_per_tick, max_line_bytes,
  carriage_return,
}
use prostometrics_agent.Nginx.AccessLog.Tail.Chunks.{fragment, read_chunks_split}
use prostometrics_agent.Nginx.AccessLog.Tail.Reads.{read_sized-lines}

abbrev from_start : Identity → LogTail
from_start i = record { opened = true; identity = i; offset = 0; partial = [] }

reopened :
    (t : LogTail) (a : Answers) (size : ℕ)
    → t.identity.1 ≢ 0
    → (t.opened ≡ false) ⊎ (a.stat_path ≡ none)
    → a.open_path ≡ some (t.identity, size)
    → ensure_open t a ≡ (from_start t.identity, true)
unfolding ensure_open open_new rotated close
reopened t a size known failed same = ground arith

reads_whole :
    (i : Identity) (size : ℕ)
    → size ≤ max_bytes_per_tick
    → skip_ahead size (rewind size (from_start i)) ≡ from_start i
unfolding rewind skip_ahead
reads_whole i size few = ground arith

read_whole :
    (i : Identity) (a : Answers)
    → a.seek_ok ≡ true
    → length a.content ≤ max_bytes_per_tick
    → (read_sized (length a.content) (from_start i) a).1
      ≡ lines_read (read_chunks [] [] a.content).0
read_whole i a ok few =
    read_sized-lines (length a.content) (from_start i) a ok refl
    ∙ ap (λ s. lines_read (read_chunks s.partial [] (drop s.offset a.content)).0)
        (reads_whole i (length a.content) few)

read_opened-some :
    (t : LogTail) (o : Option ℕ) (a : Answers) (size : ℕ)
    → o ≡ some size
    → (read_opened t o a).1 ≡ (read_sized size t a).1
unfolding read_opened
read_opened-some t o a size h = rw h refl

lines-append :
    (content seen new : Bytes)
    → content ≡ seen ++ new
    → Lacks carriage_return seen
    → length (fragment [] [] seen) ≤ max_line_bytes
    → lines_read (read_chunks [] [] content).0
      ≡ lines_read ((read_chunks [] [] seen).0 ++ (read_chunks (read_chunks [] [] seen).1 [] new).0)
lines-append content seen new same plain fits =
    rw (same, read_chunks_split [] seen new plain fits) refl

-- A file that is opened again after a failure, though it is the one that was open before, is read
-- from its start: when what it holds is at most `maxBytesPerTick` bytes, all its lines are reported,
-- and so those before the offset that had been reached once more, if these hold no carriage return
-- and end in a fragment within the limit.
pub ensure_open_replays :
    (t : LogTail) (a : Answers) (seen new : Bytes)
    → t.identity.1 ≢ 0
    → (t.opened ≡ false) ⊎ (a.stat_path ≡ none)
    → a.open_path ≡ some (t.identity, length a.content)
    → a.stat_file ≡ some (length a.content)
    → a.seek_ok ≡ true
    → a.content ≡ seen ++ new
    → length a.content ≤ max_bytes_per_tick
    → length seen ≡ t.offset
    → Lacks carriage_return seen
    → length (fragment [] [] seen) ≤ max_line_bytes
    → (read_new_lines t a).1
      ≡ lines_read ((read_chunks [] [] seen).0 ++ (read_chunks (read_chunks [] [] seen).1 [] new).0)
unfolding read_new_lines
ensure_open_replays t a seen new known failed same stat ok whole few reached plain fits =
    rw (reopened t a (length a.content) known failed same) (
      read_opened-some (from_start t.identity) a.stat_file a (length a.content) stat
      ∙ read_whole t.identity a ok few
      ∙ lines-append a.content seen new whole plain fits)
