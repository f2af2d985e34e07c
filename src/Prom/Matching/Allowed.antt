-- ===== src/Prom/Matching/Allowed.antt =====
-- What the patterns of a target allow, and what metric ingest accepts.
use prostometrics_agent.Base.{
  ◌≤◌, Bool, true, false, List, [], ◌∷◌, Option, none, some, Bytes, codes, ◌≡◌, ◌≢◌, ◌⊎◌, inl, inr,
  refl, arith, ◌===◌, ===_iff, ltb, length, is_some, All, Bool-cases,
}
use prostometrics_agent.Prom.Matching.{
  Globs, matched, allowed_by, matcher, clean_patterns, fits, fits_any, metric_name,
}
use prostometrics_agent.Text.Search.{
  has_prefix, has_suffix, trim_suffix, index_any, index_where, is_one_of,
}
use prostometrics_agent.Text.Space.{trim_space}

-- The name of a series without white space around it, which ingest accepts: it is not empty, has at
-- most 100 bytes, and no bar and no line break.
abbrev pub IsMetric : Bytes → Bytes → Type 0
IsMetric raw metric =
    (metric ≡ trim_space raw)
    × (metric ≢ [])
    × (length metric ≤ 100)
    × All (λ c. (c ≢ b'|') × (c ≢ 13) × (c ≢ 10)) metric

index_any-none :
    (s : Bytes)
    → is_some (index_any s (codes "|\r\n")) ≡ false
    → All (λ c. (c ≢ b'|') × (c ≢ 13) × (c ≢ 10)) s
unfolding index_any index_where is_one_of
index_any-none [] h = tt
index_any-none (c ∷ s) h =
    ((ground arith, ground arith, ground arith), index_any-none s (ground arith))

some_byte : (s : Bytes) → (s === []) ≡ false → s ≢ []
unfolding ◌===◌
some_byte [] h = absurd (cc)
some_byte (c ∷ s) h = λ e. absurd (cc)

pub metric_name-IsMetric :
    (raw : Bytes) → (metric_name raw === []) ≡ false → IsMetric raw (metric_name raw)
unfolding metric_name
metric_name-IsMetric raw h =
    let name = trim_space raw in
    elim (Bool-cases (name === [])) [
      | inl e ↦ absurd (some_byte _ h (rw e refl))
      | inr e ↦ elim (Bool-cases (ltb 100 (length name))) [
        | inl l ↦ absurd (some_byte _ h (rw (e, l) refl))
        | inr l ↦ elim (Bool-cases (is_some (index_any name (codes "|\r\n")))) [
          | inl i ↦ absurd (some_byte _ h (rw (e, l, i) refl))
          | inr i ↦ rw (e, l, i) (refl, some_byte name e, ground arith, index_any-none name i)
        ]
      ]
    ]

matched-true : (o : Option Bool) → matched o ≡ true → o ≡ some true
matched-true none h = absurd (cc)
matched-true (some true) h = refl
matched-true (some false) h = absurd (cc)

all_blank : (ps : List Bytes) → clean_patterns ps ≡ [] → All (λ p. trim_space p ≡ []) ps
unfolding clean_patterns
all_blank [] h = tt
all_blank (p ∷ ps) h = elim (Bool-cases (trim_space p === [])) [
  | inl e ↦ ((===_iff (trim_space p) []).0 e, all_blank ps (rw e at h))
  | inr e ↦ absurd (let more = rw e at h in cc)
]

module _ (gl : Globs) where
  -- A pattern is the name itself, ends in a star behind a prefix of it, or matches it.
  abbrev pub Fits : Bytes → Bytes → Type 0
  Fits pattern name =
      (pattern ≡ name)
      ⊎ (((has_suffix pattern (codes "*") ≡ true)
            × (has_prefix name (trim_suffix pattern (codes "*")) ≡ true))
          ⊎ (gl.match pattern name ≡ some true))

  -- One of the patterns, less white space around it, is not empty and fits.
  abbrev pub SomeFits : List Bytes → Bytes → Type 0
  SomeFits [] name = ⊥
  SomeFits (p ∷ ps) name = ((trim_space p ≢ []) × Fits (trim_space p) name) ⊎ SomeFits ps name

  -- No pattern is given but empty ones, or one fits.
  abbrev pub Allows : List Bytes → Bytes → Type 0
  Allows patterns name = All (λ p. trim_space p ≡ []) patterns ⊎ SomeFits patterns name

  fits-Fits : (pattern name : Bytes) → fits gl pattern name ≡ true → Fits pattern name
  fits-Fits pattern name h = elim (Bool-cases (pattern === name)) [
    | inl same ↦ inl ((===_iff pattern name).0 same)
    | inr e ↦ elim (Bool-cases (has_suffix pattern (codes "*"))) [
      | inr off ↦ inr (inr (matched-true (gl.match pattern name) (rw (e, off) at h)))
      | inl star ↦ elim (Bool-cases (has_prefix name (trim_suffix pattern (codes "*")))) [
        | inl begins ↦ inr (inl (star, begins))
        | inr off ↦ inr (inr (matched-true (gl.match pattern name) (rw (e, star, off) at h)))
      ]
    ]
  ]

  clean_patterns-SomeFits :
      (ps : List Bytes) (name : Bytes)
      → fits_any gl (clean_patterns ps) name ≡ true
      → SomeFits ps name
  unfolding fits_any clean_patterns
  clean_patterns-SomeFits [] name h = absurd (cc)
  clean_patterns-SomeFits (p ∷ ps) name h = elim (Bool-cases (trim_space p === [])) [
    | inl e ↦ inr (clean_patterns-SomeFits ps name (rw e at h))
    | inr e ↦ elim (Bool-cases (fits gl (trim_space p) name)) [
      | inl f ↦ inl (some_byte (trim_space p) e, fits-Fits (trim_space p) name f)
      | inr f ↦ inr (clean_patterns-SomeFits ps name (rw (e, f) at h))
    ]
  ]

  allowed_by-cases :
      (cleaned : List Bytes) (name : Bytes)
      → allowed_by gl cleaned name ≡ true
      → (cleaned ≡ []) ⊎ (fits_any gl cleaned name ≡ true)
  allowed_by-cases [] name h = inl refl
  allowed_by-cases (p ∷ ps) name h = inr h

  pub matcher-Allows :
      (patterns : List Bytes) (name : Bytes)
      → matcher gl patterns name ≡ true
      → Allows patterns name
  unfolding matcher
  matcher-Allows patterns name h = elim (allowed_by-cases (clean_patterns patterns) name h) [
    | inl none_left ↦ inl (all_blank patterns none_left)
    | inr some_fits ↦ inr (clean_patterns-SomeFits patterns name some_fits)
  ]
