-- ===== src/Core/Disk/Kept.antt =====
-- What the collector keeps of the devices, and what it sends of them.
use prostometrics_agent.Base.{
  ◌+◌, ◌^◌, ◌%◌, true, false, List, [], ◌∷◌, ◌++◌, ◌≡◌, refl, sym, subst, ◌∙◌, arith, Option, none,
  some, Bytes, All, All-append, ◌==◌, ◌===◌, Bool-cases, inl, inr, ===_iff,
}
use prostometrics_agent.Base.Maps.{
  lookup, insert, has_key, lookup-insert, lookup-keep_keys, has_key-none,
}
use prostometrics_agent.Core.Counters.{diff_uint}
use prostometrics_agent.Core.Disk.{
  DiskIoStats, disk_io_latency_ms, since_prev, counted, collect_devices, in_snapshot, collect,
}
use prostometrics_agent.Metrics.{SendsFinite}

-- No name stands twice in a map.
abbrev pub IsMap : List (Bytes × DiskIoStats) → Type 0
IsMap [] = Unit
IsMap ((dev, cur) ∷ m) = (has_key dev m ≡ false) × IsMap m

-- What is found of a device after the loop: the snapshot's reading, or else the one before.
either : Option DiskIoStats → Option DiskIoStats → Option DiskIoStats
either none o = o
either (some a) o = some a

collect_devices-lookup :
    (snapshot prev : List (Bytes × DiskIoStats)) (dev : Bytes)
    → IsMap snapshot
    → lookup dev (collect_devices snapshot prev).1 ≡ either (lookup dev snapshot) (lookup dev prev)
unfolding collect_devices lookup either
collect_devices-lookup [] prev dev h = refl
collect_devices-lookup ((d, cur) ∷ snapshot) prev dev (new, h) = elim (Bool-cases (d === dev)) [
  | inl e ↦
      rw
        (
          e,
          collect_devices-lookup snapshot (insert d cur prev) dev h,
          lookup-insert d dev cur prev,
          e,
          subst (λ x. lookup x snapshot ≡ none) ((===_iff d dev).0 e) (has_key-none d snapshot new),
        )
        refl
  | inr e ↦
      rw
        (
          e,
          collect_devices-lookup snapshot (insert d cur prev) dev h,
          lookup-insert d dev cur prev,
          e,
        )
        refl
]

either-has_key :
    (dev : Bytes) (snapshot : List (Bytes × DiskIoStats)) (o : Option DiskIoStats)
    → has_key dev snapshot ≡ true
    → either (lookup dev snapshot) o ≡ lookup dev snapshot
unfolding has_key lookup either
either-has_key dev [] o h = ground arith
either-has_key dev ((d, cur) ∷ m) o h = elim (Bool-cases (d === dev)) [
  | inl e ↦ rw e refl
  | inr e ↦ rw e (either-has_key dev m o (rw e at h))
]

-- After a round whose snapshot is read, and names no device twice, what is kept of a device is what
-- the snapshot says of it, and nothing of a device that is not in it.
pub collect_keeps :
    (snapshot prev : List (Bytes × DiskIoStats)) (dev : Bytes)
    → IsMap snapshot
    → lookup dev (collect (some snapshot) prev).1 ≡ lookup dev snapshot
unfolding collect
collect_keeps snapshot prev dev h =
    let kept = lookup-keep_keys (in_snapshot snapshot) dev (collect_devices snapshot prev).1 in
    elim (Bool-cases (has_key dev snapshot)) [
      | inl e ↦
          (rw e at kept)
          ∙ collect_devices-lookup snapshot prev dev h
          ∙ either-has_key dev snapshot (lookup dev prev) e
      | inr e ↦ (rw e at kept) ∙ sym (has_key-none dev snapshot e)
    ]

since_prev-finite :
    (dev : Bytes) (o : Option DiskIoStats) (cur : DiskIoStats)
    → All SendsFinite (since_prev dev o cur)
unfolding disk_io_latency_ms
since_prev-finite dev none cur = tt
since_prev-finite dev (some prev) cur =
    elim (Bool-cases (
      (diff_uint prev.read_ops cur.read_ops + diff_uint prev.write_ops cur.write_ops) % 2 ^ 64
      == 0)) [ inl e ↦ rw e tt | inr e ↦ rw e (ground arith, tt) ]

collect_devices-finite :
    (snapshot prev : List (Bytes × DiskIoStats)) → All SendsFinite (collect_devices snapshot prev).0
unfolding collect_devices
collect_devices-finite [] prev = tt
collect_devices-finite ((dev, cur) ∷ snapshot) prev =
    All-append SendsFinite (counted dev cur ++ since_prev dev (lookup dev prev) cur)
      (collect_devices snapshot (insert dev cur prev)).0
      (All-append SendsFinite (counted dev cur) (since_prev dev (lookup dev prev) cur)
        (tt, (tt, (tt, (tt, (tt, tt))))) (since_prev-finite dev (lookup dev prev) cur))
      (collect_devices-finite snapshot (insert dev cur prev))

-- No latency that is sent divides by zero.
pub collect_finite :
    (snapshot : Option (List (Bytes × DiskIoStats))) (prev : List (Bytes × DiskIoStats))
    → All SendsFinite (collect snapshot prev).0
unfolding collect
collect_finite none prev = tt
collect_finite (some snapshot) prev = collect_devices-finite snapshot prev
