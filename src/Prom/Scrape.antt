-- ===== src/Prom/Scrape.antt =====
-- internal/collectors/prom/collector.go: targets, `Timeout`, and what `scrape` publishes of an
-- answer. The requests are given by their outcomes.
pub mod Published
pub mod Warnings
use prostometrics_agent.Base.{
  ℕ, ◌+◌, ◌*◌, Bool, true, false, not, ◌&&◌, ◌||◌, List, [], ◌∷◌, ◌++◌, Option, none, some, Bytes,
  codes, map, if◌then◌else◌, ◌===◌, ltb, length,
}
use prostometrics_agent.Base.Integers.{ℤ, pos, ltb_ℤ}
use prostometrics_agent.Base.Maps.{lookup, insert}
use prostometrics_agent.Floats.{Floats}
use prostometrics_agent.Prom.Exposition.{Sample, parse_exposition}
use prostometrics_agent.Prom.Matching.{Globs, matcher, metric_name}
use prostometrics_agent.Text.Case.{Lowering}

abbrev pub default_timeout : ℕ
default_timeout = 5_000_000_000

abbrev pub default_max_series : ℕ
default_max_series = 100

pub record Target : Type 0 where
  pub name : Bytes
  pub url : Bytes
  pub metrics : List Bytes
  pub labels : List Bytes
  pub max_series : ℤ

unfoldable pub normalize : Target → Target
normalize t = if ltb_ℤ (pos 0) t.max_series then t else record {
  name = t.name;
  url = t.url;
  metrics = t.metrics;
  labels = t.labels;
  max_series = pos default_max_series;
}

-- The targets of `NewCollector`.
unfoldable pub new_collector : List Target → List Target
new_collector targets = map normalize targets

-- `Timeout`, in nanoseconds.
unfoldable pub timeout : List Target → ℕ
timeout [] = default_timeout
timeout (t ∷ ts) = default_timeout * length (t ∷ ts)

-- A request that cannot be built or sent, and an answer with its status and the lines of its body,
-- as far as the scanner got, with whether it failed there.
pub data Answer : Type 0 where
  no_answer : Answer
  answered : ℕ → List Bytes → Bool → Answer

-- `c.warned[name]`
abbrev pub is_warned : Bytes → List (Bytes × Bool) → Bool
is_warned name warned = elim (lookup name warned) [ none ↦ false | some b ↦ b ]

-- The map of warnings after a target was stopped at its maximum, and whether a message is logged.
unfoldable pub warn : Bytes → List (Bytes × Bool) → List (Bytes × Bool) × List Bytes
warn name warned =
    if is_warned name warned then (warned, []) else (insert name true warned, name ∷ [])

abbrev pub warn_if : Bool → Bytes → List (Bytes × Bool) → List (Bytes × Bool) × List Bytes
warn_if stopped name warned = if stopped then warn name warned else (warned, [])

module _ (fl : Floats) (lw : Lowering) (gl : Globs) where
  open fl use {F, is_negative}

  -- `prostometrics.Total` or `ValueSparse`, with the metric, the value, the name of the target,
  -- which makes the first label, and the labels that follow.
  pub data Reported : Type 0 where
    total : Bytes → F → Bytes → List Bytes → Reported
    value_sparse : Bytes → F → Bytes → List Bytes → Reported

  abbrev pub report : Bytes → Target → Sample fl → Reported
  report name t s =
      if s.kind === codes "counter"
      then total name s.value t.name s.labels
      else value_sparse name s.value t.name s.labels

  -- The loop over the samples, with the number published so far, and whether it was stopped.
  unfoldable pub publish_samples : Target → ℕ → List (Sample fl) → List Reported × Bool
  publish_samples t published [] = ([], false)
  publish_samples t published (s ∷ ss) =
      let skip = publish_samples t published ss in
      let later = publish_samples t (published + 1) ss in
      let name = metric_name s.name in
      if not (matcher gl t.metrics s.name)
      then skip
      else if not (ltb_ℤ (pos published) t.max_series)
      then ([], true)
      else if is_negative s.value
      then skip
      else if name === []
      then skip
      else (report name t s ∷ later.0, later.1)

  abbrev pub publish_parsed : Target → Option (List (Sample fl)) → List Reported × Bool
  publish_parsed t none = ([], false)
  publish_parsed t (some samples) = publish_samples t 0 samples

  -- What is published, and whether the target was stopped at its maximum.
  unfoldable pub scrape_answer : Target → Answer → List Reported × Bool
  scrape_answer t no_answer = ([], false)
  scrape_answer t (answered status lines failed) =
      if ltb status 200 || not (ltb status 300)
      then ([], false)
      else publish_parsed t (parse_exposition fl lw (lines, failed) (some (matcher gl t.labels)))

  -- What is published, the warnings, and what is logged of a stop.
  unfoldable pub scrape :
      Target → Answer → List (Bytes × Bool) → List Reported × List (Bytes × Bool) × List Bytes
  scrape t a warned =
      let r = scrape_answer t a in let w = warn_if r.1 t.name warned in (r.0, w.0, w.1)

  -- `Collect`: each target with whether the context is done before it, and its answer.
  unfoldable pub collect :
      List (Target × Bool × Answer)
      → List (Bytes × Bool)
      → List Reported × List (Bytes × Bool) × List Bytes
  collect [] warned = ([], warned, [])
  collect ((t, done, a) ∷ ts) warned =
      let here = scrape t a warned in
      let rest = collect ts here.1 in
      if done then ([], warned, []) else (here.0 ++ rest.0, rest.1, here.2 ++ rest.2)
