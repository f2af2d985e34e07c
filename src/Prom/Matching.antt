-- ===== src/Prom/Matching.antt =====
-- internal/collectors/prom/collector.go: `matcher` and `metricName`.
pub mod Allowed
use prostometrics_agent.Base.{
  Bool, true, false, ◌&&◌, ◌||◌, List, [], ◌∷◌, Option, none, some, Bytes, codes, if◌then◌else◌,
  ◌===◌, ltb, length, is_some,
}
use prostometrics_agent.Text.Search.{has_prefix, has_suffix, trim_suffix, index_any}
use prostometrics_agent.Text.Space.{trim_space}

-- The patterns of `path.Match`, which are the standard library's: none is a pattern that it rejects.
pub record Globs : Type 0 where
  pub match : Bytes → Bytes → Option Bool

abbrev pub matched : Option Bool → Bool
matched none = false
matched (some b) = b

unfoldable pub clean_patterns : List Bytes → List Bytes
clean_patterns [] = []
clean_patterns (p ∷ ps) =
    let rest = clean_patterns ps in if trim_space p === [] then rest else trim_space p ∷ rest

module _ (gl : Globs) where
  open gl use {match}

  abbrev pub fits : Bytes → Bytes → Bool
  fits pattern candidate =
      (pattern === candidate)
      || (has_suffix pattern (codes "*") && has_prefix candidate (trim_suffix pattern (codes "*")))
      || matched (match pattern candidate)

  unfoldable pub fits_any : List Bytes → Bytes → Bool
  fits_any [] candidate = false
  fits_any (p ∷ ps) candidate = fits p candidate || fits_any ps candidate

  abbrev pub allowed_by : List Bytes → Bytes → Bool
  allowed_by [] candidate = true
  allowed_by (p ∷ ps) candidate = fits_any (p ∷ ps) candidate

  unfoldable pub matcher : List Bytes → Bytes → Bool
  matcher patterns = allowed_by (clean_patterns patterns)

-- What ingest would reject becomes the empty text.
unfoldable pub metric_name : Bytes → Bytes
metric_name raw =
    let name = trim_space raw in
    if (name === []) || ltb 100 (length name) || is_some (index_any name (codes "|\r\n"))
    then []
    else name
