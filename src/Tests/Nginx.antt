-- ===== src/Tests/Nginx.antt =====
-- Examples for internal/collectors/nginx/accesslog.go.
use prostometrics_agent.Base.{
  ℕ, ◌+◌, ◌≤◌, ◌<◌, ◌^◌, Bool, true, false, List, [], ◌∷◌, ◌++◌, ◌≡◌, ◌≢◌, ◌⊎◌, inl, inr, refl,
  Option, none, some, Bytes, codes, arith, length, drop, min, All, Lacks,
}
use prostometrics_agent.Base.Integers.{ℤ}
use prostometrics_agent.Floats.{Floats, whole_floats}
use prostometrics_agent.Nginx.AccessLog.Collect.{Random, Options}
use prostometrics_agent.Nginx.AccessLog.Line.{bare_times, parse_access_log_line}
use prostometrics_agent.Nginx.AccessLog.Line.Entries.{IsEntry, parse_access_log_line_lem}
use prostometrics_agent.Nginx.AccessLog.Reservoir.{new_reservoir, offer_all, offer_all_lem}
use prostometrics_agent.Nginx.AccessLog.Tail.{
  LogTail, Answers, lines_read, read_new_lines, read_chunks, read_sized, carriage_return,
}
use prostometrics_agent.Nginx.AccessLog.Tail.Chunks.{read_chunks_split}
use prostometrics_agent.Nginx.AccessLog.Tail.Follow.{Kept, Settled, read_new_lines_safe}
use prostometrics_agent.Nginx.AccessLog.Tail.Reads.{ReadsFrom, read_sized_lem}
use prostometrics_agent.Nginx.AccessLog.Tail.Replay.{ensure_open_replays}
use prostometrics_agent.Nginx.Entry.{AccessLogEntry}
use prostometrics_agent.Nginx.Status.{parse_stub_status}
use prostometrics_agent.Nginx.Status.Printed.{page_lines, printed, parse_stub_status_lem}
use prostometrics_agent.Text.Search.{join}
use prostometrics_agent.Text.Case.{ascii_lowering}

-- A file that is followed, and the answers of a tick in which it has grown.
abbrev following : LogTail
following = record { opened = true; identity = (1, 7); offset = 3; partial = codes "GE" }

abbrev grown : Answers
grown = record {
  stat_path = some (1, 7);
  open_path = some ((1, 7), 9);
  stat_file = some 9;
  seek_ok = true;
  content = codes "GET /a\nPO";
}

read_new_lines_safe_example :
    Kept (read_new_lines following grown).0 × Settled (read_new_lines following grown)
read_new_lines_safe_example = read_new_lines_safe following grown (omega arith)

plain : Lacks carriage_return (codes "T /a\nPO")
plain = (
  omega arith,
  (omega arith, (omega arith, (omega arith, (omega arith, (omega arith, (omega arith, tt)))))),
)

read_chunks_split_example : read_chunks (codes "GE") [] (codes "T /a\nPO" ++ codes "ST\r\n") ≡ (
  (read_chunks (codes "GE") [] (codes "T /a\nPO")).0
      ++ (read_chunks (read_chunks (codes "GE") [] (codes "T /a\nPO")).1 [] (codes "ST\r\n")).0,
  (read_chunks (read_chunks (codes "GE") [] (codes "T /a\nPO")).1 [] (codes "ST\r\n")).1,
)
read_chunks_split_example =
    read_chunks_split (codes "GE") (codes "T /a\nPO") (codes "ST\r\n") plain (omega arith)

read_sized_lem_example :
    (start : ℕ) × (partial : Bytes) × ReadsFrom 9 following grown.content
      (read_sized 9 following grown)
      start
      partial
read_sized_lem_example = read_sized_lem 9 following grown refl refl

-- The file is closed after an error, and is still the same file.
abbrev closed : LogTail
closed = record { opened = false; identity = (1, 7); offset = 7; partial = [] }

seen_plain : Lacks carriage_return (codes "GET /a\n")
seen_plain = (
  omega arith,
  (omega arith, (omega arith, (omega arith, (omega arith, (omega arith, (omega arith, tt)))))),
)

ensure_open_replays_example :
    (read_new_lines closed grown).1
    ≡ lines_read (
        (read_chunks [] [] (codes "GET /a\n")).0
        ++ (read_chunks (read_chunks [] [] (codes "GET /a\n")).1 [] (codes "PO")).0)
ensure_open_replays_example =
    ensure_open_replays closed grown (codes "GET /a\n") (codes "PO") (omega arith) (inl refl) refl
      refl refl refl (omega arith) refl seen_plain (omega arith)

abbrev drawn : List (ℕ × ℕ)
drawn = (0, 5) ∷ (0, 6) ∷ (1, 7) ∷ []

offer_all_lem_example :
    (length (offer_all (new_reservoir 2) drawn).samples ≡ min 2 3)
    × ((offer_all (new_reservoir 2) drawn).offered ≡ 3)
    × All (λ n. 5 ≤ n) (offer_all (new_reservoir 2) drawn).samples
offer_all_lem_example =
    offer_all_lem 2 drawn (λ n. 5 ≤ n) (omega arith, (omega arith, (omega arith, tt)))

abbrev logged : Bytes
logged = codes "10.0.0.1 - - [x] \"GET /a HTTP/1.1\" 404 7"

abbrev entry : AccessLogEntry ℤ
entry = record {
  status_class = codes "4xx";
  status = 404;
  request_time = none;
  upstream_time = none;
  remote_addr = codes "10.0.0.1";
  target = codes "/a";
  referrer = [];
}

logged_read : parse_access_log_line whole_floats logged ≡ some entry
unfolding parse_access_log_line prostometrics_agent.Text.Search.index_byte
    prostometrics_agent.Nginx.AccessLog.Line.status_of prostometrics_agent.Text.Space.fields
    prostometrics_agent.Text.Space.trim_space prostometrics_agent.Text.Number.parse_int
    prostometrics_agent.Nginx.AccessLog.Line.entry_of prostometrics_agent.Text.Number.itoa
    prostometrics_agent.Nginx.AccessLog.Line.times_of
    prostometrics_agent.Nginx.AccessLog.Line.leading_field
    prostometrics_agent.Nginx.AccessLog.Line.request_target
    prostometrics_agent.Nginx.AccessLog.Line.quoted_referrer
    prostometrics_agent.Nginx.AccessLog.Line.named_times
    prostometrics_agent.Nginx.AccessLog.Line.first_quoted prostometrics_agent.Text.Search.cut
    prostometrics_agent.Nginx.AccessLog.Line.bare_times prostometrics_agent.Text.Search.after_index
    prostometrics_agent.Text.Search.last_index_byte
    prostometrics_agent.Nginx.AccessLog.Line.bare_duration
logged_read = refl

parse_access_log_line_lem_example : IsEntry whole_floats entry
parse_access_log_line_lem_example = parse_access_log_line_lem whole_floats logged entry logged_read

-- A generator that always draws 0.
abbrev zeros : Random
zeros = record { R = ℕ; intn = λ r n. (0, r) }

abbrev options : Options
options = record { max_samples = 100; top_lists = true; site_host = [] }

abbrev lines : List Bytes
lines = logged ∷ codes "noise" ∷ logged ∷ []

-- Texts in place of numbers, each of which reads as itself.
abbrev texts : Floats
texts = record { F = Bytes; parse_float = λ s. some s; is_negative = λ v. false; to_uint = λ v. 0 }

parse_stub_status_lem_example :
    parse_stub_status ascii_lowering (join (page_lines ascii_lowering 3 70 70 250 0 1 2) 10)
    ≡ some (printed ascii_lowering 3 70 70 250 0 1 2)
parse_stub_status_lem_example = parse_stub_status_lem ascii_lowering 3 70 70 250 0 1 2 (
  omega arith,
  (omega arith, (omega arith, (omega arith, (omega arith, (omega arith, (omega arith, tt)))))),
)
