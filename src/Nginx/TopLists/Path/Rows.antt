-- ===== src/Nginx/TopLists/Path/Rows.antt =====
-- Pages that differ only in which record they name share a row.
use prostometrics_agent.Base.{
  ℕ, ◌++◌, ◌≢◌, ◌≤◌, ◌∙◌, sym, arith, none, codes, length, All, append-nil, take-append_full, true,
  List, [], ◌∷◌, ◌≡◌, ◌⊎◌, inl, inr, refl, ap₂, some, map, Bytes,
}
use prostometrics_agent.Nginx.TopLists.Path.{
  collapse_segment, collapse, normalize_path, strip_query, page_path, finish_path,
}
use prostometrics_agent.Nginx.TopLists.Segments.{
  is_identifier_segment, IsDigit, IsHexDigit, is_identifier_segment_complete,
}
use prostometrics_agent.Nginx.TopLists.Segments.Uuid.{IsUuid, is_identifier_segment-uuid}
use prostometrics_agent.Text.Search.{
  split, index_any, index_where, is_one_of, before_index, has_prefix,
}

-- A segment that stands for a record: a number, at least 16 hexadecimal digits, or a dashed UUID.
abbrev pub IsRecord : Bytes → Type 0
IsRecord s = ((s ≢ []) × (All IsDigit s ⊎ ((16 ≤ length s) × All IsHexDigit s))) ⊎ IsUuid s

record_identified : (s : Bytes) → IsRecord s → is_identifier_segment s ≡ true
record_identified s (inl (some_byte, h)) = is_identifier_segment_complete s some_byte h
record_identified s (inr h) = is_identifier_segment-uuid s h

-- The same segment, or two that each stand for a record.
abbrev pub SameSegment : Bytes → Bytes → Type 0
SameSegment a b = (a ≡ b) ⊎ (IsRecord a × IsRecord b)

abbrev pub SamePage : List Bytes → List Bytes → Type 0
SamePage [] [] = Unit
SamePage [] (b ∷ bs) = ⊥
SamePage (a ∷ as') [] = ⊥
SamePage (a ∷ as') (b ∷ bs) = SameSegment a b × SamePage as' bs

collapse_segment-same : (a b : Bytes) → SameSegment a b → collapse_segment a ≡ collapse_segment b
unfolding collapse_segment
collapse_segment-same a b (inl e) = rw e
collapse_segment-same a b (inr (p, q)) = rw (record_identified a p, record_identified b q)

map-same :
    (as' bs : List Bytes) → SamePage as' bs → map collapse_segment as' ≡ map collapse_segment bs
map-same [] [] h = refl
map-same [] (b ∷ bs) h = absurd h
map-same (a ∷ as') [] h = absurd h
map-same (a ∷ as') (b ∷ bs) (h, hs) = ap₂ ◌∷◌ (collapse_segment-same a b h) (map-same as' bs hs)

-- A query or a fragment, or neither.
abbrev pub IsQuery : Bytes → Type 0
IsQuery s = (s ≡ []) ⊎ ((rest : Bytes) × ((s ≡ b'?' ∷ rest) ⊎ (s ≡ b'#' ∷ rest)))

-- A byte of a path, which no query and no fragment begins with.
abbrev pub IsPathByte : ℕ → Type 0
IsPathByte c = (c ≢ b'?') × (c ≢ b'#')

index_any-none : (p : Bytes) → All IsPathByte p → index_any p (codes "?#") ≡ none
unfolding index_any index_where is_one_of
index_any-none [] h = refl
index_any-none (c ∷ p) (hc, h) = ground (arith, index_any-none p h)

index_any-query :
    (p rest : Bytes) (c : ℕ)
    → All IsPathByte p
    → (c ≡ b'?') ⊎ (c ≡ b'#')
    → index_any (p ++ c ∷ rest) (codes "?#") ≡ some (length p)
unfolding index_any index_where is_one_of
index_any-query [] rest c h k = ground arith
index_any-query (b ∷ p) rest c (hb, h) k = ground (arith, index_any-query p rest c h k)

strip_query-path :
    (p query : Bytes) → All IsPathByte p → IsQuery query → strip_query (p ++ query) ≡ p
unfolding strip_query before_index
strip_query-path p query h (inl e) = rw (e, append-nil p, index_any-none p h) refl
strip_query-path p query h (inr (rest, inl e)) =
    rw (e, index_any-query p rest b'?' h (inl refl)) (take-append_full p (b'?' ∷ rest) _ refl)
strip_query-path p query h (inr (rest, inr e)) =
    rw (e, index_any-query p rest b'#' h (inr refl)) (take-append_full p (b'#' ∷ rest) _ refl)

rooted : (p : Bytes) → page_path (b'/' ∷ p) ≡ some (b'/' ∷ p)
unfolding page_path has_prefix
rooted p = ground arith

normalize_path-target :
    (p query : Bytes)
    → All IsPathByte p
    → IsQuery query
    → normalize_path (b'/' ∷ (p ++ query)) ≡ finish_path (some (b'/' ∷ p))
unfolding normalize_path
normalize_path-target p query h k =
    rw (strip_query-path (b'/' ∷ p) query ((omega arith, omega arith), h) k, rooted p) refl

-- Two targets that begin with a slash get the same row of the pages list when their paths agree
-- segment by segment but for the segments that stand for a record, which are numbers, runs of at
-- least 16 hexadecimal digits and dashed UUIDs; whatever their queries and fragments are.
pub normalize_path-SamePage :
    (p q query other : Bytes)
    → All IsPathByte p
    → All IsPathByte q
    → IsQuery query
    → IsQuery other
    → SamePage (split (b'/' ∷ p) b'/') (split (b'/' ∷ q) b'/')
    → normalize_path (b'/' ∷ (p ++ query)) ≡ normalize_path (b'/' ∷ (q ++ other))
unfolding finish_path collapse
normalize_path-SamePage p q query other hp hq k l same =
    normalize_path-target p query hp k
    ∙ rw (map-same _ _ same) refl
    ∙ sym (normalize_path-target q other hq l)
