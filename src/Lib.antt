-- ===== src/Lib.antt =====
-- prostometrics-agent, the host metrics agent: its runner, its collectors and the resolution of its
-- configuration.
--
-- The agent (cmd/prostometrics-agent) reads a configuration, builds the collectors of the host and
-- probes for those of services, and hands both to the runner (internal/agent). The runner gives each
-- collector a loop of its own, lets four of them collect at once, and bounds each collection. A
-- collector (internal/collectors) reads the operating system or a service and calls the metrics
-- client, another repository, with numbers and labels; it keeps between rounds what it needs for
-- differences: offsets, counters, or the names that it has reported.
--
-- Which file models what:
--   Agent           internal/agent: settings.go, collector.go.
--     Timeout       runner.go, `collectorTimeout` and the interval of `runCollector`.
--     Limiter       runner.go, `logLimiter`.
--     Startup       runner.go, `Run`, `detectOnce`, `newFromProbe`.
--     Pool          runner.go, `run`, `runCollector` and `collectOnce` as a relation of steps, in
--                   which the loops of the collectors interleave in any order, up to the shutdown.
--   Nginx           internal/collectors/nginx: Entry, and Item for `clampItem`.
--     Status        collector.go: `parseStubStatus` and what `Collect` sends.
--     Endpoint      collector.go and probe.go: the endpoint, the request and the search for one.
--     AccessLog     accesslog.go: Line (`parseAccessLogLine`), Reservoir (`reservoir`), Tail
--                   (`logTail`), Collect (`AccessLogCollector.Collect`), which composes them, and New.
--     TopLists      toplists.go: Segments, Path (`normalizePath`), Site (`referrerSite`) and Rows
--                   (`rowsFor`, `recordRankedRows`).
--   Exec            internal/collectors/exec: Budget (`NewCollector`), Labels (`mergeLabels`), Run.
--   Prom            internal/collectors/prom: Labels and Exposition (parse.go), Matching and Scrape
--                   (collector.go).
--   Retry           the schedule that the next five collectors share, as `Collect` and
--                   `collectInstance` of each have it.
--   Sql             the rows of a query.
--   Postgres        internal/collectors/postgres/collector.go.
--   Mysql           internal/collectors/mysql/collector.go.
--   Mongo           internal/collectors/mongo/collector.go.
--   Redis           internal/collectors/redis: Wire (resp.go), Target (`parseURI`, `dial`), Info
--                   (`parseInfo` and the readings) and Collect.
--   Rabbitmq        internal/collectors/rabbitmq/collector.go.
--   Systemd         internal/collectors/systemd.
--   Docker          internal/collectors/docker: Limits, States, Container (one container) and Round
--                   (`Collect`).
--   Core            internal/collectors/core: Counters (util.go), Disk, Cpu, Net, Memory, Fs, Kernel,
--                   Pressure, and Pulse for loadavg.go, uptime.go, heartbeat.go and procfs_probe.go.
--   Labels          internal/integrations/instance.go.
--   Config          cmd/prostometrics-agent/config.go: Source finds and reads the file, EnvFiles and
--                   Expand treat its variables, and Runtime resolves it, with Enabled, Workload,
--                   Instances and Generic for its parts.
--   Entry           cmd/prostometrics-agent/main.go and internal/agent/catalog; Detect and Start for
--                   the `Detect` and `New` of every probe and the collectors that come of them.
--   Metrics         the calls of the metrics client.
--   Text, Floats    what is used of Go's strings, strconv, net, path, os.Expand and float64.
--   Base            lists, maps and integers shared by all.
--   Tests           examples.
-- A module below one of these that models no code of its own, such as Tail/Follow or Rows/Privacy,
-- holds proofs and is named for what it proves.
--
-- How code becomes a definition. A Go function is a function by clauses under its own name; the loops
-- are structural recursion over the lines, bytes or entries that they visit. A method that changes
-- its receiver returns the new state. `(T, error)` and `(T, bool)` are Option, or a data type of
-- outcomes where the kinds of error matter. A map is an association list, whose order stands for the
-- one in which `range` visits it. Strings are lists of bytes. A uint64 that the code adds or
-- multiplies is taken modulo 2 ^ 64. What the operating system, a process or a server answers is
-- data: a line, an exit, a decoded reply.
--
-- Bounds and fuel. Only `digits`, the loop of `strconv.Itoa`, runs on fuel: n + 1 rounds for the
-- number n, of which each divides it by ten; Text.Number.Inverse reads the number back from it.
--
-- Parameters. Floats gives the float64 values: how they are read, their sign and their conversion;
-- their arithmetic is not modelled, and Metrics names the expression that a reading is computed from.
-- Lowering gives `strings.ToLower`, whose mapping outside ASCII is Unicode's. Random gives the
-- numbers drawn, Globs the patterns of `path.Match`, and Durations `time.ParseDuration`.
-- Urls, RedisUrls and Endpoints give `url.Parse`, each with the parts of an URL that its client reads,
-- Format gives `yaml.Unmarshal`, and Machine and Host the files, the environment and the services of a
-- machine. The sorting of labels and of queues is an argument.
--
-- Not modelled: HTTP, JSON, YAML, SQL and the drivers, whose answers are data; the paths for other
-- systems than Linux; signals and the parsing of flags; and the text of log and error messages.
pub mod Base
pub mod Floats
pub mod Metrics
pub mod Text
pub mod Agent
pub mod Nginx
pub mod Exec
pub mod Prom
pub mod Retry
pub mod Sql
pub mod Postgres
pub mod Mysql
pub mod Mongo
pub mod Redis
pub mod Rabbitmq
pub mod Systemd
pub mod Docker
pub mod Core
pub mod Labels
pub mod Config
pub mod Entry
mod Tests
