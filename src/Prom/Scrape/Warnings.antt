-- ===== src/Prom/Scrape/Warnings.antt =====
-- How often a target is warned of.
use prostometrics_agent.Base.{
  ℕ, ◌+◌, Bool, true, false, List, [], ◌∷◌, ◌++◌, ◌≡◌, arith, Bytes, if◌then◌else◌, ◌===◌, ===_iff,
}
use prostometrics_agent.Base.Maps.{lookup-insert}
use prostometrics_agent.Floats.{Floats}
use prostometrics_agent.Prom.Matching.{Globs}
use prostometrics_agent.Prom.Scrape.{
  Target, Answer, is_warned, warn, warn_if, scrape_answer, scrape, collect,
}
use prostometrics_agent.Text.Case.{Lowering}

-- How often a name stands in a list.
abbrev pub times : Bytes → List Bytes → ℕ
times k [] = 0
times k (x ∷ xs) = if x === k then 1 + times k xs else times k xs

times-append : (k : Bytes) (xs ys : List Bytes) → times k (xs ++ ys) ≡ times k xs + times k ys
times-append k [] ys = omega arith
times-append k (x ∷ xs) ys = ground (arith, times-append k xs ys)

abbrev pub flag : Bytes → List (Bytes × Bool) → ℕ
flag k warned = if is_warned k warned then 1 else 0

-- The messages about a name are counted by its entry in the map.
abbrev pub Counts : Bytes → List (Bytes × Bool) → List (Bytes × Bool) × List Bytes → Type 0
Counts k before (after, logged) = flag k before + times k logged ≡ flag k after

warn_if-Counts :
    (k : Bytes) (stopped : Bool) (name : Bytes) (warned : List (Bytes × Bool))
    → Counts k warned (warn_if stopped name warned)
unfolding warn
warn_if-Counts k false name warned = omega arith
warn_if-Counts k true name warned = ground (arith, lookup-insert name k true warned, ===_iff name k)

module _ (fl : Floats) (lw : Lowering) (gl : Globs) where
  -- Through a whole collection the number of messages about a target's name is what its entry in the
  -- map of warnings gains: none if the map had it before, and one at most if it had not, however
  -- many targets bear the name.
  pub collect_warns_once :
      (k : Bytes) (ts : List (Target × Bool × Answer)) (warned : List (Bytes × Bool))
      → Counts k warned ((collect fl lw gl ts warned).1, (collect fl lw gl ts warned).2)
  unfolding collect scrape
  collect_warns_once k [] warned = omega arith
  collect_warns_once k ((t, true, a) ∷ ts) warned = omega arith
  collect_warns_once k ((t, false, a) ∷ ts) warned =
      let w = warn_if (scrape_answer fl lw gl t a).1 t.name warned in
      omega (
        arith,
        warn_if-Counts k (scrape_answer fl lw gl t a).1 t.name warned,
        collect_warns_once k ts w.0,
        times-append k w.1 (collect fl lw gl ts w.0).2,
      )
