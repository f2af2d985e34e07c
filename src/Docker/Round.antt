-- ===== src/Docker/Round.antt =====
-- internal/collectors/docker/cpu.go: `newCPUCollector`, `ensureHostMemTotal` and `Collect`. The
-- workers are given by the containers whose readings are taken before the context is done, in the
-- order in which they take the lock.
pub mod Pruned
use prostometrics_agent.Base.{
  ℕ, ◌+◌, Bool, true, false, ◌||◌, List, [], ◌∷◌, ◌++◌, Option, none, some, Bytes, codes,
  if◌then◌else◌, ◌===◌, ◌==◌, ltb, elem_bytes, map,
}
use prostometrics_agent.Base.Integers.{ℤ, pos, ltb_ℤ}
use prostometrics_agent.Base.Maps.{keep_keys}
use prostometrics_agent.Docker.{
  ContainerSummary, Stats, ContainerInfo, CpuPrev, LabelMode, by_service, by_container,
}
use prostometrics_agent.Docker.Container.{collect_container}
use prostometrics_agent.Docker.States.{publish_container_states}
use prostometrics_agent.Metrics.{Emission}
use prostometrics_agent.Text.Case.{Lowering}
use prostometrics_agent.Text.Space.{trim_space}

pub record Settings : Type 0 where
  pub mode : LabelMode
  pub max_containers : ℤ
  pub concurrency : ℤ
  pub timeout : ℤ
  pub every : ℤ

unfoldable pub parse_label_mode : Lowering → Bytes → Option LabelMode
parse_label_mode lw s =
    let t = lw.lower (trim_space s) in
    if (t === []) || (t === codes "service")
    then some by_service
    else if t === codes "container"
    then some by_container
    else none

abbrev at_least_one : ℤ → ℤ
at_least_one n = if ltb_ℤ n (pos 1) then pos 1 else n

abbrev at_most : ℤ → ℤ → ℤ
at_most m n = if ltb_ℤ m n then m else n

abbrev positive_or : ℤ → ℤ → ℤ
positive_or d n = if ltb_ℤ (pos 0) n then n else d

abbrev pub settings_of : Option LabelMode → ℤ → ℤ → ℤ → ℤ → Option Settings
settings_of none every max_containers concurrency timeout = none
settings_of (some mode) every max_containers concurrency timeout = some (record {
  mode = mode;
  max_containers = at_least_one max_containers;
  concurrency = at_most (pos 32) (at_least_one concurrency);
  timeout = positive_or (pos 5_000_000_000) timeout;
  every = positive_or (pos 10_000_000_000) every;
})

-- An empty path of the socket, or a mode that is not known, is an error.
unfoldable pub new_cpu_collector : Lowering → Bytes → ℤ → Bytes → ℤ → ℤ → ℤ → Option Settings
new_cpu_collector lw sock_path every label_mode max_containers concurrency timeout =
    let made =
      settings_of (parse_label_mode lw label_mode) every max_containers concurrency timeout in
    if trim_space sock_path === [] then none else made

-- What the collector keeps: the memory of the host and the previous readings.
pub record State : Type 0 where
  pub host_mem_total : ℕ
  pub prev : List (Bytes × CpuPrev)

-- With the answer to /info, which is not asked for once the memory is known.
unfoldable pub ensure_host_mem_total : Option ℕ → ℕ → ℕ
ensure_host_mem_total none host = host
ensure_host_mem_total (some mem_total) host = if ltb 0 host then host else mem_total

-- A container whose readings are taken, with the answers to its two requests.
abbrev pub Taken : Type 0
Taken = ContainerSummary × Option Stats × Option ContainerInfo

unfoldable pub collect_taken :
    LabelMode → ℕ → List Taken → List (Bytes × CpuPrev) → List Emission × List (Bytes × CpuPrev)
collect_taken mode host [] prev = ([], prev)
collect_taken mode host ((ctr, stats, info) ∷ taken) prev =
    let here = collect_container mode host ctr stats info prev in
    let rest = collect_taken mode host taken here.1 in (here.0 ++ rest.0, rest.1)

abbrev id_of : ContainerSummary → Bytes
id_of ctr = ctr.id

abbrev pub ids_of : List ContainerSummary → List Bytes
ids_of ctrs = map id_of ctrs

abbrev pub is_active : List ContainerSummary → Bytes → Bool
is_active running id = elem_bytes id (ids_of running)

-- The round over the running containers, of which there is one at least.
abbrev pub collect_running :
    LabelMode
    → ℕ
    → List ContainerSummary
    → List Taken
    → List (Bytes × CpuPrev)
    → List Emission × State
collect_running mode host running taken prev =
    let r = collect_taken mode host taken prev in
    (r.0, record { host_mem_total = host; prev = keep_keys (is_active running) r.1 })

abbrev pub collect_states :
    LabelMode
    → ℕ
    → List ContainerSummary
    → List Emission
    → List Taken
    → List (Bytes × CpuPrev)
    → List Emission × State
collect_states mode host [] sent taken prev = (sent, record { host_mem_total = host; prev = [] })
collect_states mode host (ctr ∷ running) sent taken prev =
    let r = collect_running mode host (ctr ∷ running) taken prev in (sent ++ r.0, r.1)

abbrev pub collect_listed :
    Lowering
    → LabelMode
    → ℕ
    → Option (List ContainerSummary)
    → List Taken
    → List (Bytes × CpuPrev)
    → List Emission × State
collect_listed lw mode host none taken prev = ([], record { host_mem_total = host; prev = prev })
collect_listed lw mode host (some all) taken prev =
    let p = publish_container_states lw mode all in collect_states mode host p.0 p.1 taken prev

-- `Collect`, with the answers to /info and to the listing, and the containers taken.
unfoldable pub collect :
    Lowering
    → LabelMode
    → Option ℕ
    → Option (List ContainerSummary)
    → List Taken
    → State
    → List Emission × State
collect lw mode info all taken s =
    collect_listed lw mode (ensure_host_mem_total info s.host_mem_total) all taken s.prev
