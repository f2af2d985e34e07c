-- ===== src/Docker/States.antt =====
-- internal/collectors/docker/cpu.go: `parseDockerLabelMode`, `containerLabelValue` and
-- `publishContainerStates`.
use prostometrics_agent.Base.{
  Bool-cases, subst, refl, length-append, ===_iff, inl, inr, arith, ◌≡◌, length, ℕ, ◌+◌, Bool, true,
  false, not, List, [], ◌∷◌, ◌++◌, none, some, Bytes, codes, if◌then◌else◌, ◌===◌, map,
}
use prostometrics_agent.Base.Maps.{lookup, insert, has_key, lookup-insert, ===_refl}
use prostometrics_agent.Docker.{ContainerSummary, LabelMode, by_service, by_container}
use prostometrics_agent.Metrics.{whole, label, Emission, value_sparse, success}
use prostometrics_agent.Text.Case.{Lowering}
use prostometrics_agent.Text.Search.{trim_prefix}
use prostometrics_agent.Text.Space.{trim_space}

abbrev text_at : Bytes → List (Bytes × Bytes) → Bytes
text_at key m = elim (lookup key m) [ none ↦ [] | some v ↦ v ]

abbrev first_name : List Bytes → Bytes
first_name [] = []
first_name (n ∷ ns) = trim_prefix (trim_space n) (codes "/")

abbrev service_name : ContainerSummary → Bytes
service_name ctr =
    let compose = trim_space (text_at (codes "com.docker.compose.service") ctr.labels) in
    let swarm = trim_space (text_at (codes "com.docker.swarm.service.name") ctr.labels) in
    if not (compose === [])
    then compose
    else if not (swarm === [])
    then swarm
    else first_name ctr.names

unfoldable pub container_label_value : LabelMode → ContainerSummary → Bytes
container_label_value by_container ctr = first_name ctr.names
container_label_value by_service ctr = service_name ctr

-- The key of a label mode.
abbrev pub label_key : LabelMode → Bytes
label_key by_service = codes "service"
label_key by_container = codes "container"

abbrev pub no_counts : List (Bytes × ℕ)
no_counts =
    (codes "running", 0)
    ∷ (codes "exited", 0)
    ∷ (codes "restarting", 0)
    ∷ (codes "paused", 0)
    ∷ (codes "created", 0)
    ∷ (codes "dead", 0)
    ∷ []

-- `counts[state]`, and `counts[state]++`.
abbrev pub count_of : Bytes → List (Bytes × ℕ) → ℕ
count_of state counts = elim (lookup state counts) [ none ↦ 0 | some n ↦ n ]

abbrev pub count_up : Bytes → List (Bytes × ℕ) → List (Bytes × ℕ)
count_up state counts = insert state (count_of state counts + 1) counts

module _ (lw : Lowering) (mode : LabelMode) where
  open lw use {lower}

  abbrev pub state_of : ContainerSummary → Bytes
  state_of ctr = lower (trim_space ctr.state)

  -- The running containers, the counts by state and what is published so far.
  pub record Listing : Type 0 where
    pub running : List ContainerSummary
    pub counts : List (Bytes × ℕ)
    pub sent : List Emission

  abbrev up_of : Bytes → Bool → List Emission
  up_of name up =
      if name === []
      then []
      else success (codes "docker.container.up") up (label (label_key mode) name ∷ []) ∷ []

  -- The state is known if the map of counts has it.
  abbrev pub known_state : Bytes → List (Bytes × ℕ) → Bytes
  known_state state counts = if has_key state counts then state else codes "other"

  abbrev pub list_state : ContainerSummary → Bytes → Listing → Listing
  list_state ctr state l = record {
    running = if state === codes "running" then l.running ++ ctr ∷ [] else l.running;
    counts = count_up state l.counts;
    sent = l.sent ++ up_of (container_label_value mode ctr) (state === codes "running");
  }

  unfoldable pub list_container : ContainerSummary → Listing → Listing
  list_container ctr l =
      let state = state_of ctr in
      if state === [] then l else list_state ctr (known_state state l.counts) l

  unfoldable pub list_all : List ContainerSummary → Listing → Listing
  list_all [] l = l
  list_all (ctr ∷ all) l = list_all all (list_container ctr l)

  abbrev pub count_sent : Bytes × ℕ → Emission
  count_sent (state, n) =
      value_sparse (codes "docker.containers_count") (whole n) (label (codes "state") state ∷ [])

  -- The containers that run, and what is published.
  unfoldable pub publish_container_states :
      List ContainerSummary → List ContainerSummary × List Emission
  publish_container_states all =
      let l = list_all all (record { running = []; counts = no_counts; sent = [] }) in
      (l.running, l.sent ++ map count_sent l.counts)

  -- The count of the running containers is the number of those that are returned.
  abbrev IsCounted : Listing → Type 0
  IsCounted l = count_of (codes "running") l.counts ≡ length l.running

  count_up-count :
      (state k : Bytes) (counts : List (Bytes × ℕ))
      → count_of k (count_up state counts)
        ≡ (if state === k then count_of state counts + 1 else count_of k counts)
  count_up-count state k counts =
      ground (arith, lookup-insert state k (count_of state counts + 1) counts)

  count_up-same :
      (state k : Bytes) (counts : List (Bytes × ℕ))
      → (state === k) ≡ true
      → count_of k (count_up state counts) ≡ count_of k counts + 1
  count_up-same state k counts h =
      subst (λ x. count_of x (count_up state counts) ≡ count_of x counts + 1)
        ((===_iff state k).0 h) (rw (===_refl state) at (count_up-count state state counts))

  count_up-other :
      (state k : Bytes) (counts : List (Bytes × ℕ))
      → (state === k) ≡ false
      → count_of k (count_up state counts) ≡ count_of k counts
  count_up-other state k counts h = rw h at (count_up-count state k counts)

  list_state-IsCounted :
      (ctr : ContainerSummary) (state : Bytes) (l : Listing)
      → IsCounted l
      → IsCounted (list_state ctr state l)
  list_state-IsCounted ctr state l h = elim (Bool-cases (state === codes "running")) [
    | inl k ↦ rw k (
        omega (
          arith,
          h,
          count_up-same state (codes "running") l.counts k,
          length-append l.running (ctr ∷ []),
        ))
    | inr k ↦ rw k (omega (arith, h, count_up-other state (codes "running") l.counts k))
  ]

  list_container-IsCounted :
      (ctr : ContainerSummary) (l : Listing) → IsCounted l → IsCounted (list_container ctr l)
  unfolding list_container
  list_container-IsCounted ctr l h = elim (Bool-cases (state_of ctr === [])) [
    | inl e ↦ rw (e, list_container) h
    | inr e ↦
        rw (e, list_container) (list_state-IsCounted ctr (known_state (state_of ctr) l.counts) l h)
  ]

  list_all-IsCounted :
      (all : List ContainerSummary) (l : Listing) → IsCounted l → IsCounted (list_all all l)
  unfolding list_all
  list_all-IsCounted [] l h = h
  list_all-IsCounted (ctr ∷ all) l h =
      list_all-IsCounted all (list_container ctr l) (list_container-IsCounted ctr l h)

  -- The number of running containers that is published is that of the containers that are returned as
  -- running: both come from one pass over one listing, and the counts that are sent are those of that
  -- pass.
  pub running_counted :
      (all : List ContainerSummary)
      → (l : Listing) × (publish_container_states all
          ≡ (l.running, l.sent ++ map count_sent l.counts))
        × (count_of (codes "running") l.counts ≡ length l.running)
  unfolding publish_container_states lookup ◌===◌
  running_counted all = (
    list_all all (record { running = []; counts = no_counts; sent = [] }),
    refl,
    list_all-IsCounted all (record { running = []; counts = no_counts; sent = [] }) refl,
  )
