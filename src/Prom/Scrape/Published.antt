-- ===== src/Prom/Scrape/Published.antt =====
-- What a scrape may publish, and how often it warns.
use prostometrics_agent.Base.{
  ℕ, ◌+◌, true, false, List, [], ◌∷◌, ◌≡◌, refl, arith, some, Bytes, codes, ◌===◌, ltb, length,
  Bool-cases, inl, inr, All,
}
use prostometrics_agent.Base.Integers.{pos, ltb_ℤ, ◌≤ℤ◌}
use prostometrics_agent.Floats.{Floats}
use prostometrics_agent.Prom.Exposition.{Sample, parse_exposition, scan_exposition}
use prostometrics_agent.Prom.Exposition.Kinds.{IsSample, scan_exposition-IsSample}
use prostometrics_agent.Prom.Labels.Cleaning.{AreLabels}
use prostometrics_agent.Prom.Matching.Allowed.{
  IsMetric, Allows, metric_name-IsMetric, matcher-Allows,
}
use prostometrics_agent.Prom.Matching.{Globs, matcher, metric_name}
use prostometrics_agent.Prom.Scrape.{
  Target, Answer, no_answer, answered, Reported, total, value_sparse, report, publish_samples,
  scrape_answer,
}
use prostometrics_agent.Text.Case.{Lowering}

module _ (fl : Floats) (lw : Lowering) (gl : Globs) where
  open fl use {F, is_negative}

  -- Every part of a report: the name is that of a series which the target's list of metrics allows
  -- and which ingest accepts, the value is not negative, and the labels are clean and allowed.
  abbrev pub IsFair : Target → Bytes → F → Bytes → List Bytes → Type 0
  IsFair t metric v name labels =
      ((raw : Bytes) × Allows gl t.metrics raw × IsMetric raw metric)
      × (is_negative v ≡ false)
      × (name ≡ t.name)
      × AreLabels (some (matcher gl t.labels)) labels

  abbrev pub IsReport : Target → Reported fl lw gl → Type 0
  IsReport t (total metric v name labels) = IsFair t metric v name labels
  IsReport t (value_sparse metric v name labels) = IsFair t metric v name labels

  report-IsReport :
      (t : Target) (s : Sample fl)
      → matcher gl t.metrics s.name ≡ true
      → (metric_name s.name === []) ≡ false
      → is_negative s.value ≡ false
      → AreLabels (some (matcher gl t.labels)) s.labels
      → IsReport t (report fl lw gl (metric_name s.name) t s)
  report-IsReport t s m e n l = elim (Bool-cases (s.kind === codes "counter")) [
    | inl k ↦
        rw (k, IsReport)
          (
            (s.name, matcher-Allows gl t.metrics s.name m, metric_name-IsMetric s.name e),
            n,
            refl,
            l,
          )
    | inr k ↦
        rw (k, IsReport)
          (
            (s.name, matcher-Allows gl t.metrics s.name m, metric_name-IsMetric s.name e),
            n,
            refl,
            l,
          )
  ]

  abbrev Good : Target → ℕ → List (Reported fl lw gl) → Type 0
  Good t n rs = All (IsReport t) rs × (pos (n + length rs) ≤ℤ t.max_series)

  publish_samples-Good :
      (t : Target) (n : ℕ) (ss : List (Sample fl))
      → pos n ≤ℤ t.max_series
      → All (IsSample fl lw (some (matcher gl t.labels))) ss
      → Good t n (publish_samples fl lw gl t n ss).0
  unfolding publish_samples
  publish_samples-Good t n [] h hs = (tt, omega arith)
  publish_samples-Good t n (s ∷ ss) h (hs, hss) = elim (Bool-cases (matcher gl t.metrics s.name)) [
    | inr m ↦ rw (m, publish_samples) (publish_samples-Good t n ss h hss)
    | inl m ↦ elim (Bool-cases (ltb_ℤ (pos n) t.max_series)) [
      | inr full ↦ rw (m, full, publish_samples) (tt, omega arith)
      | inl room ↦ elim (Bool-cases (is_negative s.value)) [
        | inl neg ↦ rw (m, room, neg, publish_samples) (publish_samples-Good t n ss h hss)
        | inr neg ↦ elim (Bool-cases (metric_name s.name === [])) [
          | inl e ↦ rw (m, room, neg, e, publish_samples) (publish_samples-Good t n ss h hss)
          | inr e ↦
              rw (m, room, neg, e, publish_samples)
                (let rest = publish_samples-Good t (n + 1) ss (ground arith) hss in
                  ((report-IsReport t s m e neg hs.0, rest.0), ground (arith, rest.1)))
        ]
      ]
    ]
  ]

  -- A target's scrape publishes no more than its maximum of series, and each of them bears the
  -- target's name, a value that is not negative, labels that are clean and allowed, and the metric of
  -- a series that its list of metrics allows: one of the list's patterns is that name, ends in a star
  -- behind a prefix of it or matches it, or none is given but empty ones. The metric is the name
  -- without white space around it, which ingest accepts: 1 to 100 bytes without a bar and a line
  -- break. The maximum must not be negative, as `NewCollector` sees to.
  pub scrape_answer_lem :
      (t : Target) (a : Answer)
      → pos 0 ≤ℤ t.max_series
      → All (IsReport t) (scrape_answer fl lw gl t a).0
        × (pos (length (scrape_answer fl lw gl t a).0) ≤ℤ t.max_series)
  unfolding scrape_answer parse_exposition
  scrape_answer_lem t no_answer h = (tt, h)
  scrape_answer_lem t (answered status lines failed) h = elim (Bool-cases (ltb status 200)) [
    | inl e ↦ rw e (tt, h)
    | inr e ↦ elim (Bool-cases (ltb status 300)) [
      | inr f ↦ rw (e, f) (tt, h)
      | inl f ↦ elim (Bool-cases failed) [
        | inl g ↦ rw (e, f, g) (tt, h)
        | inr g ↦
            rw (e, f, g)
              (let r =
                  publish_samples-Good t 0
                    (scan_exposition fl lw (some (matcher gl t.labels)) [] lines) h
                    (scan_exposition-IsSample fl lw (some (matcher gl t.labels)) [] lines) in
                (r.0, ground (arith, r.1)))
      ]
    ]
  ]
