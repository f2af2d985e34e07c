-- ===== src/Tests/Collectors.antt =====
-- Examples for the collectors of the host, of containers, units, endpoints, commands and Redis.
use prostometrics_agent.Base.{
  ℕ, ◌+◌, ◌/◌, ◌≤◌, ◌<◌, Bool, true, false, List, [], ◌∷◌, ◌++◌, ◌≡◌, ◌≢◌, ◌↔◌, inl, inr, refl,
  none, some, Bytes, codes, arith, length, All, max, map,
}
use prostometrics_agent.Base.Integers.{pos, ◌≤ℤ◌}
use prostometrics_agent.Base.Maps.{lookup}
use prostometrics_agent.Core.Cpu.{CpuTimes, shares}
use prostometrics_agent.Core.Cpu.Shares.{AreGains, gained, IsPartOf, shares_lem}
use prostometrics_agent.Core.Disk.{DiskIoStats}
use prostometrics_agent.Core.Disk as Disk
use prostometrics_agent.Core.Disk.Kept.{collect_keeps}
use prostometrics_agent.Docker.{ContainerSummary, CpuPrev, by_container}
use prostometrics_agent.Docker.Container.{collect_container}
use prostometrics_agent.Docker.Container.Finite.{collect_container_finite}
use prostometrics_agent.Docker.Round.{State}
use prostometrics_agent.Docker.Round as Round
use prostometrics_agent.Docker.Round.Pruned.{IsStopped, collect_forgets}
use prostometrics_agent.Exec.{Command}
use prostometrics_agent.Exec.Labels.{merge_labels, count_named, first_named, merge_labels_lem}
use prostometrics_agent.Exec.Run.{printed, run_command}
use prostometrics_agent.Exec.Run.Outcome.{Bounded, run_command_lem}
use prostometrics_agent.Floats.{whole_floats}
use prostometrics_agent.Metrics.{SendsFinite}
use prostometrics_agent.Prom.Labels.{parse_labels}
use prostometrics_agent.Prom.Labels.Cleaning.{AreLabels, parse_labels_lem}
use prostometrics_agent.Prom.Matching.{Globs}
use prostometrics_agent.Prom.Scrape.{Target, answered, scrape_answer}
use prostometrics_agent.Prom.Scrape as Scrape
use prostometrics_agent.Prom.Scrape.Published.{IsReport, scrape_answer_lem}
use prostometrics_agent.Prom.Scrape.Warnings.{Counts, collect_warns_once}
use prostometrics_agent.Redis.Wire.{bulks}
use prostometrics_agent.Redis.Wire.Framing.{read_replies, read_replies-bulks}
use prostometrics_agent.Systemd as Systemd
use prostometrics_agent.Text.Case.{ascii_lowering}

abbrev queue_depth : Command
queue_depth = record {
  metric = codes "queue.depth";
  path = codes "/bin/depth";
  args = [];
  kind = [];
  labels = codes "queue=mail" ∷ [];
  timeout = pos 3_000_000_000;
}

run_command_lem_example :
    Bounded whole_floats queue_depth 0
      (run_command whole_floats queue_depth (printed (codes "7 queue=web\n9")))
run_command_lem_example =
    run_command_lem whole_floats queue_depth (printed (codes "7 queue=web\n9"))

merge_labels_lem_example :
    (count_named (codes "queue") (merge_labels (codes "queue=mail" ∷ []) (codes "queue=web" ∷ []))
      ≤ 1)
    × (first_named (codes "queue") (merge_labels (codes "queue=mail" ∷ []) (codes "queue=web" ∷ []))
        ≡ first_named (codes "queue") (codes "queue=mail" ∷ codes "queue=web" ∷ []))
merge_labels_lem_example =
    merge_labels_lem (codes "queue=mail" ∷ []) (codes "queue=web" ∷ []) (codes "queue") (cc)

read_replies-bulks_example :
    read_replies 2 (bulks (codes "AUTH" ∷ codes "a\r\n$1\r\nb" ∷ []) ++ codes "x")
    ≡ some (codes "AUTH" ∷ codes "a\r\n$1\r\nb" ∷ [], codes "x")
read_replies-bulks_example =
    read_replies-bulks (codes "AUTH" ∷ codes "a\r\n$1\r\nb" ∷ []) (codes "x")
      (omega arith, (omega arith, tt))

abbrev db_first : Bytes × Bytes
db_first = (codes "db0", codes "keys=3,expires=1")

abbrev db_second : Bytes × Bytes
db_second = (codes "db1", codes "keys=4")

abbrev no_globs : Globs
no_globs = record { match = λ p c. none }

abbrev exporter : Target
exporter = record {
  name = codes "app";
  url = codes "http://app/metrics";
  metrics = codes "http_*" ∷ [];
  labels = [];
  max_series = pos 1;
}

abbrev exposition : List Bytes
exposition =
    codes "# TYPE http_total counter"
    ∷ codes "http_total{code=\"200\"} 7"
    ∷ codes "http_open 2"
    ∷ []

scrape_answer_lem_example :
    All
      (IsReport whole_floats ascii_lowering no_globs exporter)
      (scrape_answer whole_floats ascii_lowering no_globs exporter
        (answered 200 exposition false)).0
    × (pos (
          length
            (scrape_answer whole_floats ascii_lowering no_globs exporter
              (answered 200 exposition false)).0)
        ≤ℤ pos 1)
scrape_answer_lem_example =
    scrape_answer_lem whole_floats ascii_lowering no_globs exporter (answered 200 exposition false)
      (omega arith)

parse_labels_lem_example : AreLabels none (parse_labels (codes "path=\"/a|b\",workload=\"x\"") none)
parse_labels_lem_example = parse_labels_lem none (codes "path=\"/a|b\",workload=\"x\"")

abbrev twice : List (Target × Bool × Scrape.Answer)
twice =
    (exporter, false, answered 200 exposition false)
    ∷ (exporter, false, answered 200 exposition false)
    ∷ []

collect_warns_once_example : Counts (codes "app") [] (
  (Scrape.collect whole_floats ascii_lowering no_globs twice []).1,
  (Scrape.collect whole_floats ascii_lowering no_globs twice []).2,
)
collect_warns_once_example =
    collect_warns_once whole_floats ascii_lowering no_globs (codes "app") twice []

abbrev disk : DiskIoStats
disk = record {
  read_bytes = 512;
  write_bytes = 0;
  read_ops = 1;
  write_ops = 0;
  read_time_ms = 4;
  write_time_ms = 0;
  io_time_ms = 4;
}

collect_keeps_example :
    lookup
      (codes "sdb")
      (Disk.collect (some ((codes "sda", disk) ∷ [])) ((codes "sdb", disk) ∷ [])).1
    ≡ lookup (codes "sdb") ((codes "sda", disk) ∷ [])
unfolding prostometrics_agent.Base.Maps.has_key
collect_keeps_example =
    collect_keeps ((codes "sda", disk) ∷ []) ((codes "sdb", disk) ∷ []) (codes "sdb") (refl, tt)

abbrev times_at : ℕ → CpuTimes
times_at n = record {
  user = 3 + n;
  nice = 0;
  system = 2;
  idle = 10 + n + n;
  iowait = 0;
  irq = 0;
  softirq = 0;
  steal = 0;
  guest = 0;
  guest_nice = 0;
}

shares_lem_example :
    AreGains (times_at 0) (times_at 5) (shares (codes "cpu0") (some (times_at 0)) (times_at 5))
    × All
        (IsPartOf (gained (times_at 0) (times_at 5)))
        (shares (codes "cpu0") (some (times_at 0)) (times_at 5))
shares_lem_example = shares_lem (codes "cpu0") (times_at 0) (times_at 5) (omega arith)

abbrev web : ContainerSummary
web = record {
  id = codes "c1";
  names = codes "/web" ∷ [];
  labels = [];
  state = codes "exited";
  status = [];
}

abbrev readings : CpuPrev
readings = record { total_usage = 1; system_usage = 1; periods = 0; throttled_periods = 0 }

abbrev kept : State
kept = record { host_mem_total = 8; prev = (codes "c1", readings) ∷ [] }

web-IsStopped : IsStopped ascii_lowering (codes "c1") web
unfolding prostometrics_agent.Base.◌===◌ prostometrics_agent.Text.Space.trim_space
    prostometrics_agent.Text.Case.lower_byte
web-IsStopped = inr refl

collect_forgets_example :
    lookup
      (codes "c1")
      (Round.collect ascii_lowering by_container none (some (web ∷ [])) [] kept).1.prev
    ≡ none
collect_forgets_example =
    collect_forgets ascii_lowering by_container none (web ∷ []) [] kept (codes "c1")
      (web-IsStopped, tt)

collect_container_finite_example :
    All SendsFinite (collect_container by_container 8 web none none kept.prev).0
collect_container_finite_example = collect_container_finite by_container 8 web none none kept.prev
