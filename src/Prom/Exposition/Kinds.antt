-- ===== src/Prom/Exposition/Kinds.antt =====
-- What the samples of an exposition are like.
use prostometrics_agent.Base.{
  ◌+◌, Bool, false, List, [], ◌∷◌, ◌≡◌, arith, Option, none, some, Bytes, codes, ◌===◌, Bool-cases,
  Option-cases, inl, inr, All, All-append, take, drop,
}
use prostometrics_agent.Floats.{Floats}
use prostometrics_agent.Prom.Exposition.{
  Sample, valued, labelled, parse_sample_line, kept, sample_line, is_bucket, type_line,
  scan_exposition, with_kind, text_at, metric_family,
}
use prostometrics_agent.Prom.Labels.{parse_labels}
use prostometrics_agent.Prom.Labels.Cleaning.{AreLabels, parse_labels_lem}
use prostometrics_agent.Text.Case.{Lowering}
use prostometrics_agent.Text.Search.{has_prefix, index_any, index_byte}
use prostometrics_agent.Text.Space.{trim_space, fields}

module _ (fl : Floats) where
  open fl use {parse_float}

  -- What holds of the sample of a line, if there is one.
  abbrev ReadsLabels : Option (Bytes → Bool) → Option (Sample fl) → Type 0
  ReadsLabels allow none = Unit
  ReadsLabels allow (some s) = AreLabels allow s.labels

  valued-ReadsLabels :
      (allow : Option (Bytes → Bool)) (name : Bytes) (labels fs : List Bytes)
      → AreLabels allow labels
      → ReadsLabels allow (valued fl name labels fs)
  valued-ReadsLabels allow name labels [] h = tt
  valued-ReadsLabels allow name labels (f ∷ fs) h = elim (Option-cases (parse_float f)) [
    | inl e ↦ rw (e, ReadsLabels) tt
    | inr (v, e) ↦ rw (e, ReadsLabels) h
  ]

  labelled-ReadsLabels :
      (allow : Option (Bytes → Bool)) (name rest : Bytes)
      → ReadsLabels allow (labelled fl name rest allow)
  labelled-ReadsLabels allow name rest = elim (Bool-cases (has_prefix rest (codes "{"))) [
    | inr e ↦ rw e (valued-ReadsLabels allow name [] (fields rest) (omega arith, tt))
    | inl e ↦ elim (Option-cases (index_byte rest b'}')) [
      | inl o ↦ rw (e, o) tt
      | inr (close, o) ↦
          rw (e, o)
            (valued-ReadsLabels allow name (parse_labels (drop 1 (take close rest)) allow)
              (fields (drop (close + 1) rest)) (parse_labels_lem allow (drop 1 (take close rest))))
    ]
  ]

  parse_sample_line-ReadsLabels :
      (allow : Option (Bytes → Bool)) (line : Bytes)
      → ReadsLabels allow (parse_sample_line fl line allow)
  unfolding parse_sample_line
  parse_sample_line-ReadsLabels allow line = elim (Option-cases (index_any line (codes "{ \t"))) [
    | inl e ↦ rw (e, ReadsLabels) tt
    | inr (i, e) ↦ rw (e, ReadsLabels) (labelled-ReadsLabels allow (take i line) (drop i line))
  ]

  module _ (lw : Lowering) where
    -- The labels are few and clean, and the sample is not a bucket of a histogram.
    abbrev pub IsSample : Option (Bytes → Bool) → Sample fl → Type 0
    IsSample allow s = AreLabels allow s.labels × (is_bucket fl lw s ≡ false)

    kept-IsSample :
        (allow : Option (Bytes → Bool)) (s : Sample fl)
        → AreLabels allow s.labels
        → All (IsSample allow) (kept fl lw s)
    kept-IsSample allow s h = elim (Bool-cases (is_bucket fl lw s)) [
      | inl e ↦ rw e tt
      | inr e ↦ rw e ((h, e), tt)
    ]

    sample_line-IsSample :
        (allow : Option (Bytes → Bool)) (types : List (Bytes × Bytes)) (o : Option (Sample fl))
        → ReadsLabels allow o
        → All (IsSample allow) (sample_line fl lw types o)
    sample_line-IsSample allow types none h = tt
    sample_line-IsSample allow types (some s) h =
        kept-IsSample allow (with_kind fl lw s (text_at fl (metric_family s.name) types)) h

    pub scan_exposition-IsSample :
        (allow : Option (Bytes → Bool)) (types : List (Bytes × Bytes)) (lines : List Bytes)
        → All (IsSample allow) (scan_exposition fl lw allow types lines)
    unfolding scan_exposition
    scan_exposition-IsSample allow types [] = tt
    scan_exposition-IsSample allow types (raw ∷ lines) = elim (Bool-cases (trim_space raw === [])) [
      | inl e ↦ rw (e, scan_exposition) (scan_exposition-IsSample allow types lines)
      | inr e ↦ elim (Bool-cases (has_prefix (trim_space raw) (codes "#"))) [
        | inl c ↦
            rw (e, c, scan_exposition)
              (scan_exposition-IsSample allow (type_line fl lw (fields (trim_space raw)) types)
                lines)
        | inr c ↦
            rw (e, c, scan_exposition)
              (All-append (IsSample allow)
                (sample_line fl lw types (parse_sample_line fl (trim_space raw) allow))
                (scan_exposition fl lw allow types lines)
                (sample_line-IsSample allow types (parse_sample_line fl (trim_space raw) allow)
                  (parse_sample_line-ReadsLabels allow (trim_space raw)))
                (scan_exposition-IsSample allow types lines))
      ]
    ]
