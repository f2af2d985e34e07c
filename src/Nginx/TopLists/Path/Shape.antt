-- ===== src/Nginx/TopLists/Path/Shape.antt =====
-- What a row of the pages list looks like.
use prostometrics_agent.Base.{
  ℕ, ◌+◌, false, List, [], ◌∷◌, ◌≡◌, ◌≢◌, ◌⊎◌, inl, inr, refl, some, map, arith, Bytes, Bool-cases,
  Option-cases, All, All-drop, drop, codes, subst, ltb, length,
}
use prostometrics_agent.Nginx.Item.Clamp.{IsItem, clamp_item-All, clamp_item-IsItem}
use prostometrics_agent.Nginx.TopLists.Path.{
  collapse_segment, collapse, normalize_path, strip_query, page_path, slash, path_of_url,
  finish_path, trim_slash,
}
use prostometrics_agent.Nginx.TopLists.Segments.{is_identifier_segment}
use prostometrics_agent.Text.Search.{
  split, join, index_any, is_one_of, index, index_byte, has_prefix,
}
use prostometrics_agent.Text.Search.Parts.{split-All, join-All, trim_suffix-All}
use prostometrics_agent.Text.Search.Positions.{before_index-Fails}

abbrev pub NoQuery : ℕ → Type 0
NoQuery c = (c ≢ b'?') × (c ≢ b'#')

no_query : (s : Bytes) → All (λ c. is_one_of (codes "?#") c ≡ false) s → All NoQuery s
unfolding is_one_of
no_query [] h = tt
no_query (c ∷ s) h = ((ground arith, ground arith), no_query s h.1)

strip_query-All : (t : Bytes) → All NoQuery (strip_query t)
unfolding strip_query index_any
strip_query-All t = no_query _ (before_index-Fails (is_one_of (codes "?#")) t)

page_path-All : (t p : Bytes) → All NoQuery t → page_path t ≡ some p → All NoQuery p
unfolding page_path path_of_url
page_path-All t p h e = elim (Bool-cases (has_prefix t slash)) [
  | inl k ↦ subst (All NoQuery) (ground arith) h
  | inr k ↦ elim (Option-cases (index t (codes "://"))) [
    | inl none_found ↦ absurd (ground arith)
    | inr (i, ei) ↦ elim (Option-cases (index_byte (drop (i + 3) t) b'/')) [
      | inl none_found ↦ absurd (ground arith)
      | inr (j, ej) ↦ subst (All NoQuery) (ground arith) (All-drop NoQuery (i + 3 + j) t h)
    ]
  ]
]

segments-All :
    (ss : List Bytes) → All (All NoQuery) ss → All (All NoQuery) (map collapse_segment ss)
unfolding collapse_segment
segments-All [] h = tt
segments-All (s ∷ ss) (h, hs) = elim (Bool-cases (is_identifier_segment s)) [
  | inl e ↦ rw e (omega arith, segments-All ss hs)
  | inr e ↦ rw e (h, segments-All ss hs)
]

collapse-All : (p : Bytes) → All NoQuery p → All NoQuery (trim_slash (collapse p))
unfolding collapse trim_slash
collapse-All p h =
    let whole =
      join-All NoQuery (map collapse_segment (split p b'/')) b'/' (omega arith)
        (segments-All _ (split-All NoQuery p b'/' h)) in
    elim (Bool-cases (ltb 1 (length (join (map collapse_segment (split p b'/')) b'/')))) [
      | inl e ↦ rw e (trim_suffix-All NoQuery _ slash whole)
      | inr e ↦ rw e whole
    ]

-- A row of the pages list holds no query and no fragment, whatever the client asked for, and is a
-- name that the product accepts; where there is no such name there is no row.
pub normalize_path_lem :
    (t : Bytes)
    → All NoQuery (normalize_path t) × ((normalize_path t ≡ []) ⊎ IsItem (normalize_path t))
unfolding normalize_path finish_path
normalize_path_lem t = elim (Option-cases (page_path (strip_query t))) [
  | inl e ↦ rw e (tt, inl refl)
  | inr (p, e) ↦
      let clean = page_path-All _ p (strip_query-All t) e in
      rw e (
        clamp_item-All NoQuery _ (collapse-All p clean),
        clamp_item-IsItem (trim_slash (collapse p)),
      )
]
