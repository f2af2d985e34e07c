-- ===== src/Docker/Round/Pruned.antt =====
-- What a round keeps.
use prostometrics_agent.Base.{
  ℕ, false, List, [], ◌∷◌, Option, none, some, Bytes, ◌≡◌, refl, ◌≢◌, ◌⊎◌, inl, inr, ◌===◌, ===_iff,
  sym, All, Bool-cases, codes, elem_bytes, ◌++◌,
}
use prostometrics_agent.Text.Space.{trim_space}
use prostometrics_agent.Base.Maps.{lookup, has_key, lookup-keep_keys}
use prostometrics_agent.Docker.{ContainerSummary, CpuPrev, LabelMode}
use prostometrics_agent.Docker.Round.{
  State, Taken, is_active, collect_taken, collect_states, collect, ensure_host_mem_total,
}
use prostometrics_agent.Docker.States.{
  Listing, publish_container_states, known_state, list_container, list_all, no_counts,
}
use prostometrics_agent.Metrics.{Emission}
use prostometrics_agent.Text.Case.{Lowering}

-- What is kept under an identity that is not among those of the running containers.
collect_states-forgets :
    (mode : LabelMode) (host : ℕ) (running : List ContainerSummary) (sent : List Emission)
    (taken : List Taken) (prev : List (Bytes × CpuPrev)) (id : Bytes)
    → is_active running id ≡ false
    → lookup id (collect_states mode host running sent taken prev).1.prev ≡ none
unfolding lookup
collect_states-forgets mode host [] sent taken prev id h = refl
collect_states-forgets mode host (ctr ∷ running) sent taken prev id h =
    rw h at (lookup-keep_keys (is_active (ctr ∷ running)) id (collect_taken mode host taken prev).1)

-- The listing shows no running container of this identity: a container has another one, or is in
-- another state, by its trimmed and lowered name.
abbrev pub IsStopped : Lowering → Bytes → ContainerSummary → Type 0
IsStopped lw id ctr =
    (ctr.id ≢ id) ⊎ ((lw.lower (trim_space ctr.state) === codes "running") ≡ false)

is_active-append :
    (id : Bytes) (running : List ContainerSummary) (ctr : ContainerSummary)
    → ctr.id ≢ id
    → is_active running id ≡ false
    → is_active (running ++ ctr ∷ []) id ≡ false
unfolding elem_bytes
is_active-append id [] ctr other h = elim (Bool-cases (id === ctr.id)) [
  | inl e ↦ absurd (other (sym ((===_iff id ctr.id).0 e)))
  | inr e ↦ rw e refl
]
is_active-append id (r ∷ running) ctr other h = elim (Bool-cases (id === r.id)) [
  | inl e ↦ absurd (cc)
  | inr e ↦ rw e (is_active-append id running ctr other (rw e at h))
]

module _ (lw : Lowering) (mode : LabelMode) (id : Bytes) where
  -- What is not running stays so under the name that the counts have for its state.
  known_state-stopped :
      (state : Bytes) (counts : List (Bytes × ℕ))
      → (state === codes "running") ≡ false
      → (known_state lw mode state counts === codes "running") ≡ false
  unfolding ◌===◌
  known_state-stopped state counts h = elim (Bool-cases (has_key state counts)) [
    | inl e ↦ rw e h
    | inr e ↦ rw e refl
  ]

  list_container-stopped :
      (ctr : ContainerSummary) (l : Listing lw mode)
      → IsStopped lw id ctr
      → is_active l.running id ≡ false
      → is_active (list_container lw mode ctr l).running id ≡ false
  unfolding list_container
  list_container-stopped ctr l stopped h =
      let state = lw.lower (trim_space ctr.state) in
      elim (Bool-cases (state === [])) [
        | inl e ↦ rw e h
        | inr e ↦ elim (Bool-cases (known_state lw mode state l.counts === codes "running")) [
          | inr k ↦ rw (e, k) h
          | inl k ↦ elim stopped [
            | inl other ↦ rw (e, k) (is_active-append id l.running ctr other h)
            | inr still ↦ absurd (let no = known_state-stopped state l.counts still in cc)
          ]
        ]
      ]

  list_all-stopped :
      (all : List ContainerSummary) (l : Listing lw mode)
      → All (IsStopped lw id) all
      → is_active l.running id ≡ false
      → is_active (list_all lw mode all l).running id ≡ false
  unfolding list_all
  list_all-stopped [] l hs h = h
  list_all-stopped (ctr ∷ all) l (stopped, hs) h =
      list_all-stopped all (list_container lw mode ctr l) hs
        (list_container-stopped ctr l stopped h)

  publish_container_states-stopped :
      (all : List ContainerSummary)
      → All (IsStopped lw id) all
      → is_active (publish_container_states lw mode all).0 id ≡ false
  unfolding publish_container_states elem_bytes
  publish_container_states-stopped all hs =
      list_all-stopped all (record { running = []; counts = no_counts; sent = [] }) hs refl

-- After a round whose listing is read, nothing is kept of a container that the listing does not show
-- as running, however the workers went: the map of previous readings is bounded by what runs.
pub collect_forgets :
    (lw : Lowering) (mode : LabelMode) (info : Option ℕ) (all : List ContainerSummary)
    (taken : List Taken) (s : State) (id : Bytes)
    → All (IsStopped lw id) all
    → lookup id (collect lw mode info (some all) taken s).1.prev ≡ none
unfolding collect
collect_forgets lw mode info all taken s id h =
    collect_states-forgets mode (ensure_host_mem_total info s.host_mem_total)
      (publish_container_states lw mode all).0 (publish_container_states lw mode all).1 taken s.prev
      id (publish_container_states-stopped lw mode id all h)
