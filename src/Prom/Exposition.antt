-- ===== src/Prom/Exposition.antt =====
-- internal/collectors/prom/parse.go: `parseExposition`, `metricFamily` and `parseSampleLine`. The
-- lines are those of the scanner, which fails on a line over its limit or an error of the reader.
pub mod Kinds
use prostometrics_agent.Base.{
  ℕ, ◌+◌, Bool, true, false, not, ◌&&◌, ◌||◌, List, [], ◌∷◌, ◌++◌, Option, none, some, Bytes, codes,
  map, if◌then◌else◌, ◌===◌, take, drop, get_or,
}
use prostometrics_agent.Base.Maps.{lookup, insert}
use prostometrics_agent.Floats.{Floats}
use prostometrics_agent.Prom.Labels.{parse_labels}
use prostometrics_agent.Text.Case.{Lowering}
use prostometrics_agent.Text.Search.{has_prefix, has_suffix, trim_suffix, index_any, index_byte}
use prostometrics_agent.Text.Space.{trim_space, fields}

unfoldable pub metric_family : Bytes → Bytes
metric_family name =
    if has_suffix name (codes "_bucket")
    then trim_suffix name (codes "_bucket")
    else if has_suffix name (codes "_sum")
    then trim_suffix name (codes "_sum")
    else if has_suffix name (codes "_count")
    then trim_suffix name (codes "_count")
    else name

module _ (fl : Floats) where
  open fl use {F, parse_float}

  pub record Sample : Type 0 where
    pub name : Bytes
    pub labels : List Bytes
    pub value : F
    pub kind : Bytes

  abbrev valued : Bytes → List Bytes → List Bytes → Option Sample
  valued name labels [] = none
  valued name labels (f ∷ fs) = elim (parse_float f) [
    | none ↦ none
    | some v ↦ some (record { name = name; labels = labels; value = v; kind = [] })
  ]

  -- What follows the name, which starts with a brace if there are labels.
  abbrev labelled : Bytes → Bytes → Option (Bytes → Bool) → Option Sample
  labelled name rest allow =
      let bare = valued name [] (fields rest) in
      if has_prefix rest (codes "{")
      then elim (index_byte rest b'}') [
        | none ↦ none
        | some close ↦
            valued name (parse_labels (drop 1 (take close rest)) allow)
              (fields (drop (close + 1) rest))
      ]
      else bare

  unfoldable pub parse_sample_line : Bytes → Option (Bytes → Bool) → Option Sample
  parse_sample_line line allow = elim (index_any line (codes "{ \t")) [
    | none ↦ none
    | some name_end ↦ labelled (take name_end line) (drop name_end line) allow
  ]

  -- A missing key reads as the empty text.
  abbrev pub text_at : Bytes → List (Bytes × Bytes) → Bytes
  text_at k m = elim (lookup k m) [ none ↦ [] | some v ↦ v ]

  module _ (lw : Lowering) where
    open lw use {lower}

    -- `types[fields[2]] = strings.ToLower(fields[3])`, if there are four fields or more.
    abbrev type_line : List Bytes → List (Bytes × Bytes) → List (Bytes × Bytes)
    type_line (f0 ∷ f1 ∷ f2 ∷ f3 ∷ fs) types =
        if f1 === codes "TYPE" then insert f2 (lower f3) types else types
    type_line fs types = types

    abbrev pub with_kind : Sample → Bytes → Sample
    with_kind s k = record { name = s.name; labels = s.labels; value = s.value; kind = k }

    abbrev pub is_bucket : Sample → Bool
    is_bucket s = (s.kind === codes "histogram") && has_suffix s.name (codes "_bucket")

    abbrev kept : Sample → List Sample
    kept s = if is_bucket s then [] else s ∷ []

    abbrev sample_line : List (Bytes × Bytes) → Option Sample → List Sample
    sample_line types none = []
    sample_line types (some parsed) =
        kept (with_kind parsed (text_at (metric_family parsed.name) types))

    unfoldable pub scan_exposition :
        Option (Bytes → Bool) → List (Bytes × Bytes) → List Bytes → List Sample
    scan_exposition allow types [] = []
    scan_exposition allow types (raw ∷ lines) =
        let line = trim_space raw in
        let skip = scan_exposition allow types lines in
        let typed = scan_exposition allow (type_line (fields line) types) lines in
        if line === []
        then skip
        else if has_prefix line (codes "#")
        then typed
        else sample_line types (parse_sample_line line allow) ++ skip

    -- The lines scanned, and whether the scanner failed after them.
    unfoldable pub parse_exposition :
        List Bytes × Bool → Option (Bytes → Bool) → Option (List Sample)
    parse_exposition (lines, failed) allow =
        if failed then none else some (scan_exposition allow [] lines)
