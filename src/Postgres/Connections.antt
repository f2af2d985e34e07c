-- ===== src/Postgres/Connections.antt =====
-- The connections are reported whole or not at all.
use prostometrics_agent.Base.{
  Bool, true, false, List, [], ◌∷◌, Option, none, some, Bytes, ◌≡◌, ◌===◌, if◌then◌else◌,
}
use prostometrics_agent.Base.Integers.{ℤ}
use prostometrics_agent.Base.Maps.{lookup}
use prostometrics_agent.Metrics.{Label, Emission}
use prostometrics_agent.Metrics.Sent.{In}
use prostometrics_agent.Postgres.{seeded_states, connections}
use prostometrics_agent.Sql.{Rows, query_failed, rows}

abbrev prepend_count : Bytes × ℤ → Option (List (Bytes × ℤ)) → Option (List (Bytes × ℤ))
prepend_count c none = none
prepend_count c (some cs) = some (c ∷ cs)

-- The counts that the rows give, if each row is read and no error follows.
abbrev pub all_read : List (Option (Bytes × ℤ)) → Bool → Option (List (Bytes × ℤ))
all_read [] true = none
all_read [] false = some []
all_read (none ∷ rs) err = none
all_read (some c ∷ rs) err = prepend_count c (all_read rs err)

abbrev pub read_counts : Rows (Bytes × ℤ) → Option (List (Bytes × ℤ))
read_counts query_failed = none
read_counts (rows rs err) = all_read rs err

-- The count that the server gives for a state, the last if it gives several, and the default if it
-- gives none.
abbrev pub count_of : Bytes → Option ℤ → List (Bytes × ℤ) → Option ℤ
count_of state default [] = default
count_of state default ((s, n) ∷ counts) =
    count_of state (if s === state then some n else default) counts

abbrev Counts : Bytes → Option ℤ → Option (List (Bytes × ℤ)) → Option (List (Bytes × ℤ)) → Type 0
Counts state default none states = states ≡ none
Counts state default (some counts) none = ⊥
Counts state default (some counts) (some states) =
    lookup state states ≡ count_of state default counts

abbrev IsReported : Label → Bytes → Option ℤ → List Emission → Type 0
IsReported inst state none sent = Unit
IsReported inst state (some n) sent = In (connections inst (state, n)) sent

-- With the counts read, the state is reported with the count given; without, nothing is reported.
abbrev pub Reports : Label → Bytes → Option (List (Bytes × ℤ)) → List Emission → Type 0
Reports inst state none sent = sent ≡ []
Reports inst state (some counts) sent =
    IsReported inst state (count_of state (lookup state seeded_states) counts) sent
