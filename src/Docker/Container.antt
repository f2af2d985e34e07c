-- ===== src/Docker/Container.antt =====
-- internal/collectors/docker/cpu.go: `collectContainer`, on the two answers for one container.
pub mod Finite
use prostometrics_agent.Base.{
  ℕ, ◌+◌, ◌-◌, ◌^◌, ◌%◌, Bool, true, false, not, ◌&&◌, ◌||◌, List, [], ◌∷◌, ◌++◌, Option, none,
  some, Bytes, codes, if◌then◌else◌, ◌===◌, ltb, leb, ◌==◌, length,
}
use prostometrics_agent.Base.Maps.{lookup, insert}
use prostometrics_agent.Docker.{
  ContainerSummary, MemoryStats, CpuStats, Stats, ContainerInfo, CpuPrev, LabelMode,
}
use prostometrics_agent.Docker.Limits.{working_set, is_real_memory_limit}
use prostometrics_agent.Docker.States.{label_key, container_label_value}
use prostometrics_agent.Metrics.{
  Reading, whole, kilo, share, percent, Label, label, written, Emission, value, value_sparse, total,
  success,
}
use prostometrics_agent.Text.Case.{equal_fold}

abbrev pub diff_uint : ℕ → ℕ → ℕ
diff_uint a b = if leb a b then b - a else 0

abbrev usage_of : Label → MemoryStats → List Emission
usage_of target m =
    if ltb 0 m.usage
    then value_sparse (codes "docker.container.mem.usage_kb") (kilo m.usage) (target ∷ []) ∷ []
    else []

abbrev limit_share : Label → ℕ → ℕ → List Emission
limit_share target working limit =
    if ltb 0 working
    then value (codes "docker.container.mem.limit_used_pct") (share working limit) (target ∷ [])
      ∷ []
    else []

unfoldable pub limit_of : Label → ℕ → MemoryStats → List Emission
limit_of target host_mem_total m =
    if ltb 0 m.limit && is_real_memory_limit host_mem_total m.limit
    then value_sparse (codes "docker.container.mem.limit_kb") (kilo m.limit) (target ∷ [])
      ∷ limit_share target (working_set m) m.limit
    else []

abbrev health_of : Label → Option Bytes → List Emission
health_of target none = []
health_of target (some status) =
    success (codes "docker.container.healthy") (equal_fold status (codes "healthy")) (target ∷ [])
    ∷ []

unfoldable pub inspected : Label → Option ContainerInfo → List Emission
inspected target none = []
inspected target (some info) =
    let restarts =
      if info.restart_count == 0 then info.state_restart_count else info.restart_count in
    (total (codes "docker.container.restart_count") (whole restarts) (target ∷ []) ∷ [])
    ++ health_of target info.health
    ++ (value_sparse (codes "docker.container.oom_killed")
          (whole (if info.oom_killed then 1 else 0)) (target ∷ [])
        ∷ [])

-- The sums of what was received and of what was sent, each a uint64.
unfoldable pub network_sums : List (Bytes × (ℕ × ℕ)) → ℕ → ℕ → ℕ × ℕ
network_sums [] rx tx = (rx, tx)
network_sums ((name, (r, t)) ∷ nets) rx tx =
    network_sums nets ((rx + r) % 2 ^ 64) ((tx + t) % 2 ^ 64)

abbrev networks_of : Label → List (Bytes × (ℕ × ℕ)) → List Emission
networks_of target [] = []
networks_of target (n ∷ nets) =
    let sums = network_sums (n ∷ nets) 0 0 in
    total (codes "docker.container.net.kb") (kilo sums.0) (target ∷ written (codes "dir=rx") ∷ [])
    ∷ total (codes "docker.container.net.kb") (kilo sums.1) (target ∷ written (codes "dir=tx") ∷ [])
    ∷ []

-- The number of processors, as a uint32.
abbrev pub online_of : CpuStats → ℕ
online_of cpu =
    let counted = length cpu.percpu_usage % 2 ^ 32 in
    if not (cpu.online_cpus == 0)
    then cpu.online_cpus
    else if not (counted == 0)
    then counted
    else 1

abbrev throttled_of : Label → CpuPrev → CpuStats → List Emission
throttled_of target prev cpu =
    let periods = diff_uint prev.periods cpu.periods in
    let throttled = diff_uint prev.throttled_periods cpu.throttled_periods in
    if ltb 0 periods
    then value (codes "docker.container.cpu.throttled_pct") (share throttled periods) (target ∷ [])
      ∷ []
    else []

-- The percentage of the deltas, which are not zero, is neither negative nor undefined.
abbrev cpu_share : Label → CpuPrev → CpuStats → List Emission
cpu_share target prev cpu =
    let cpu_delta = diff_uint prev.total_usage cpu.total_usage in
    let system_delta = diff_uint prev.system_usage cpu.system_usage in
    if (cpu_delta == 0) || (system_delta == 0)
    then []
    else value (codes "docker.container.cpu.usage_pct")
        (percent cpu_delta system_delta (online_of cpu)) (target ∷ [])
      ∷ []

abbrev since_prev : Label → Option CpuPrev → CpuStats → List Emission
since_prev target none cpu = []
since_prev target (some prev) cpu = throttled_of target prev cpu ++ cpu_share target prev cpu

abbrev pub prev_of : CpuStats → CpuPrev
prev_of cpu = record {
  total_usage = cpu.total_usage;
  system_usage = cpu.system_usage;
  periods = cpu.periods;
  throttled_periods = cpu.throttled_periods;
}

-- What is sent of the processors, and the map of the previous readings afterwards.
unfoldable pub cpu_of :
    Label → Bytes → CpuStats → List (Bytes × CpuPrev) → List Emission × List (Bytes × CpuPrev)
cpu_of target id cpu prev =
    if (cpu.total_usage == 0) || (cpu.system_usage == 0)
    then ([], prev)
    else (since_prev target (lookup id prev) cpu, insert id (prev_of cpu) prev)

abbrev pub with_stats :
    Label
    → Bytes
    → ℕ
    → Option Stats
    → Option ContainerInfo
    → List (Bytes × CpuPrev)
    → List Emission × List (Bytes × CpuPrev)
with_stats target id host none info prev = ([], prev)
with_stats target id host (some stats) info prev =
    let c = cpu_of target id stats.cpu prev in
    (
      usage_of target stats.memory
          ++ limit_of target host stats.memory
          ++ inspected target info
          ++ networks_of target stats.networks
          ++ c.0,
      c.1,
    )

-- `collectContainer`, with the memory of the host.
unfoldable pub collect_container :
    LabelMode
    → ℕ
    → ContainerSummary
    → Option Stats
    → Option ContainerInfo
    → List (Bytes × CpuPrev)
    → List Emission × List (Bytes × CpuPrev)
collect_container mode host ctr stats info prev =
    let target = container_label_value mode ctr in
    if (ctr.id === []) || (target === [])
    then ([], prev)
    else with_stats (label (label_key mode) target) ctr.id host stats info prev
