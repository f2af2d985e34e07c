-- ===== src/Docker/Limits.antt =====
-- internal/collectors/docker/types.go and cpu.go: `workingSet` and `isRealMemoryLimit`.
use prostometrics_agent.Base.{
  ℕ, ◌+◌, ◌-◌, ◌/◌, ◌≤◌, ◌<◌, Bool, true, ◌≡◌, ◌↔◌, arith, List, [], ◌∷◌, Option, none, some, Bytes,
  codes, if◌then◌else◌, ltb, ◌==◌, Option-cases, inl, inr,
}
use prostometrics_agent.Base.Maps.{lookup}
use prostometrics_agent.Docker.{MemoryStats}

abbrev keep_reclaimable : ℕ → Option ℕ → ℕ → ℕ
keep_reclaimable usage none rest = rest
keep_reclaimable usage (some reclaimable) rest =
    if ltb reclaimable usage then usage - reclaimable else 0

-- The loop over the names of the reclaimable part.
unfoldable pub less_reclaimable : ℕ → List Bytes → List (Bytes × ℕ) → ℕ
less_reclaimable usage [] stats = usage
less_reclaimable usage (key ∷ keys) stats =
    keep_reclaimable usage (lookup key stats) (less_reclaimable usage keys stats)

unfoldable pub working_set : MemoryStats → ℕ
working_set m =
    if m.usage == 0
    then 0
    else less_reclaimable m.usage
        (codes "inactive_file" ∷ codes "total_inactive_file" ∷ codes "cache" ∷ []) m.stats

-- `hostMemTotal - hostMemTotal/100` does not wrap, since the hundredth is the smaller.
unfoldable pub is_real_memory_limit : ℕ → ℕ → Bool
is_real_memory_limit host_mem_total limit =
    if host_mem_total == 0 then true else ltb limit (host_mem_total - host_mem_total / 100)

less_reclaimable_le :
    (usage : ℕ) (keys : List Bytes) (stats : List (Bytes × ℕ))
    → less_reclaimable usage keys stats ≤ usage
unfolding less_reclaimable
less_reclaimable_le usage [] stats = omega arith
less_reclaimable_le usage (key ∷ keys) stats = elim (Option-cases (lookup key stats)) [
  | inl e ↦ rw e (less_reclaimable_le usage keys stats)
  | inr (r, e) ↦ rw e (ground arith)
]

-- The working set is never more than the usage: the subtraction does not wrap, whatever breakdown
-- the daemon sends.
pub working_set_le : (m : MemoryStats) → working_set m ≤ m.usage
unfolding working_set
working_set_le m = ground (
  arith,
  less_reclaimable_le m.usage
      (codes "inactive_file" ∷ codes "total_inactive_file" ∷ codes "cache" ∷ []) m.stats,
)

-- Once the memory of the host is known, a limit passes as real just when it is more than a hundredth
-- of that memory, rounded down, below it: neither the memory itself nor anything above it does.
pub is_real_memory_limit_iff :
    (host limit : ℕ)
    → 0 < host
    → (is_real_memory_limit host limit ≡ true) ↔ (limit + host / 100 < host)
unfolding is_real_memory_limit
is_real_memory_limit_iff host limit h = ground arith
