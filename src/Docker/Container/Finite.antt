-- ===== src/Docker/Container/Finite.antt =====
-- No reading of a container divides by zero, and what is kept of it.
use prostometrics_agent.Base.{
  ℕ, ◌<◌, ◌||◌, List, [], ◌∷◌, arith, Option, none, some, Bytes, All, All-append, ◌===◌, ltb, ◌==◌,
  Bool-cases, Option-cases, inl, inr,
}
use prostometrics_agent.Base.Maps.{lookup}
use prostometrics_agent.Docker.{
  ContainerSummary, MemoryStats, CpuStats, Stats, ContainerInfo, CpuPrev, LabelMode,
}
use prostometrics_agent.Docker.Limits.{is_real_memory_limit, working_set}
use prostometrics_agent.Docker.States.{label_key, container_label_value}
use prostometrics_agent.Docker.Container.{
  usage_of, limit_share, limit_of, inspected, networks_of, throttled_of, cpu_share, since_prev,
  cpu_of, with_stats, collect_container, diff_uint,
}
use prostometrics_agent.Metrics.{Label, label, SendsFinite}

usage_of-finite : (t : Label) (m : MemoryStats) → All SendsFinite (usage_of t m)
usage_of-finite t m = elim (Bool-cases (ltb 0 m.usage)) [ inl e ↦ rw e (tt, tt) | inr e ↦ rw e tt ]

limit_share-finite : (t : Label) (w limit : ℕ) → 0 < limit → All SendsFinite (limit_share t w limit)
limit_share-finite t w limit h = elim (Bool-cases (ltb 0 w)) [
  | inl e ↦ rw e (h, tt)
  | inr e ↦ rw e tt
]

limit_of-finite : (t : Label) (host : ℕ) (m : MemoryStats) → All SendsFinite (limit_of t host m)
unfolding limit_of
limit_of-finite t host m = elim (Bool-cases (ltb 0 m.limit)) [
  | inr e ↦ rw e tt
  | inl e ↦ elim (Bool-cases (is_real_memory_limit host m.limit)) [
    | inr r ↦ rw (e, r) tt
    | inl r ↦ rw (e, r) (tt, limit_share-finite t (working_set m) m.limit (ground arith))
  ]
]

inspected-finite : (t : Label) (info : Option ContainerInfo) → All SendsFinite (inspected t info)
unfolding inspected
inspected-finite t none = tt
inspected-finite t (some info) = elim (Option-cases info.health) [
  | inl e ↦ rw e (tt, (tt, tt))
  | inr (s, e) ↦ rw e (tt, (tt, (tt, tt)))
]

networks_of-finite :
    (t : Label) (nets : List (Bytes × (ℕ × ℕ))) → All SendsFinite (networks_of t nets)
networks_of-finite t [] = tt
networks_of-finite t (n ∷ nets) = (tt, (tt, tt))

throttled_of-finite :
    (t : Label) (prev : CpuPrev) (cpu : CpuStats) → All SendsFinite (throttled_of t prev cpu)
throttled_of-finite t prev cpu = elim (Bool-cases (ltb 0 (diff_uint prev.periods cpu.periods))) [
  | inl e ↦ rw e (ground arith, tt)
  | inr e ↦ rw e tt
]

cpu_share-finite :
    (t : Label) (prev : CpuPrev) (cpu : CpuStats) → All SendsFinite (cpu_share t prev cpu)
cpu_share-finite t prev cpu = elim (Bool-cases (diff_uint prev.total_usage cpu.total_usage == 0)) [
  | inl e ↦ rw e tt
  | inr e ↦ elim (Bool-cases (diff_uint prev.system_usage cpu.system_usage == 0)) [
    | inl z ↦ rw (e, z) tt
    | inr z ↦ rw (e, z) (ground arith, tt)
  ]
]

since_prev-finite :
    (t : Label) (prev : Option CpuPrev) (cpu : CpuStats) → All SendsFinite (since_prev t prev cpu)
since_prev-finite t none cpu = tt
since_prev-finite t (some prev) cpu =
    All-append SendsFinite (throttled_of t prev cpu) (cpu_share t prev cpu)
      (throttled_of-finite t prev cpu) (cpu_share-finite t prev cpu)

cpu_of-finite :
    (t : Label) (id : Bytes) (cpu : CpuStats) (prev : List (Bytes × CpuPrev))
    → All SendsFinite (cpu_of t id cpu prev).0
unfolding cpu_of
cpu_of-finite t id cpu prev =
    elim (Bool-cases ((cpu.total_usage == 0) || (cpu.system_usage == 0))) [
      | inl e ↦ rw e tt
      | inr e ↦ rw e (since_prev-finite t (lookup id prev) cpu)
    ]

with_stats-finite :
    (t : Label) (id : Bytes) (host : ℕ) (stats : Option Stats) (info : Option ContainerInfo)
    (prev : List (Bytes × CpuPrev))
    → All SendsFinite (with_stats t id host stats info prev).0
with_stats-finite t id host none info prev = tt
with_stats-finite t id host (some s) info prev =
    All-append SendsFinite _ _
      (All-append SendsFinite _ _
        (All-append SendsFinite _ _
          (All-append SendsFinite (usage_of t s.memory) (limit_of t host s.memory)
            (usage_of-finite t s.memory) (limit_of-finite t host s.memory))
          (inspected-finite t info))
        (networks_of-finite t s.networks))
      (cpu_of-finite t id s.cpu prev)

-- Whatever a daemon answers of a container, and whatever was kept of it before, no percentage that is
-- sent divides by zero.
pub collect_container_finite :
    (mode : LabelMode) (host : ℕ) (ctr : ContainerSummary) (stats : Option Stats)
    (info : Option ContainerInfo) (prev : List (Bytes × CpuPrev))
    → All SendsFinite (collect_container mode host ctr stats info prev).0
unfolding collect_container
collect_container_finite mode host ctr stats info prev =
    elim (Bool-cases ((ctr.id === []) || (container_label_value mode ctr === []))) [
      | inl e ↦ rw e tt
      | inr e ↦ rw e (
          with_stats-finite (label (label_key mode) (container_label_value mode ctr)) ctr.id host
            stats info prev)
    ]
