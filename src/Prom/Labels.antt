-- ===== src/Prom/Labels.antt =====
-- internal/collectors/prom/parse.go: `parseLabels` and `unquoteLabelValue`.
pub mod Cleaning
use prostometrics_agent.Base.{
  ℕ, ◌-◌, Bool, true, false, not, ◌&&◌, ◌||◌, List, [], ◌∷◌, ◌++◌, Option, none, some, Bytes, codes,
  map, if◌then◌else◌, ◌===◌, leb, length, ◌==◌, take, drop, get_or,
}
use prostometrics_agent.Text.Search.{cut}
use prostometrics_agent.Text.Space.{trim_space}

abbrev pub max_labels_per_sample : ℕ
max_labels_per_sample = 8

abbrev pub clean_byte : ℕ → ℕ
clean_byte c = if c == b'|' then b'_' else if c == 13 || c == 10 then 32 else c

abbrev pub is_quoted : Bytes → Bool
is_quoted raw =
    leb 2 (length raw) && (get_or raw 0 0 == 34) && (get_or raw (length raw - 1) 0 == 34)

abbrev pub unquote : Bytes → Bytes
unquote raw = if is_quoted raw then take (length raw - 2) (drop 1 raw) else raw

unfoldable pub unquote_label_value : Bytes → Bytes
unquote_label_value raw = trim_space (map clean_byte (unquote raw))

-- The test of a name that the caller gives, which may be nil.
abbrev pub allows : Option (Bytes → Bool) → Bytes → Bool
allows none name = true
allows (some allow) name = allow name

abbrev add_label : List Bytes → Bytes → Bytes → List Bytes
add_label out name [] = out
add_label out name (c ∷ value) =
    if leb max_labels_per_sample (length out) then out else out ++ (name ++ b'=' ∷ c ∷ value) ∷ []

abbrev add_pair : Option (Bytes → Bool) → List Bytes → Option (Bytes × Bytes) → List Bytes
add_pair allow out none = out
add_pair allow out (some (raw_name, raw)) =
    let name = trim_space raw_name in
    if (name === []) || (name === codes "workload") || not (allows allow name)
    then out
    else add_label out name (unquote_label_value (trim_space raw))

-- A pair that is empty has no sign of equality in it.
unfoldable pub flush_label : Option (Bytes → Bool) → List Bytes → Bytes → List Bytes
flush_label allow out current =
    let pair = trim_space current in if pair === [] then out else add_pair allow out (cut pair b'=')

-- The loop over the bytes, with the labels found, the pair being read, and whether it stands in
-- quotes and behind a backslash.
unfoldable pub scan_labels :
    Option (Bytes → Bool) → List Bytes → Bytes → Bool → Bool → Bytes → List Bytes
scan_labels allow out current quotes escaped [] = flush_label allow out current
scan_labels allow out current quotes escaped (ch ∷ raw) =
    let plain = scan_labels allow out (current ++ ch ∷ []) quotes false raw in
    let escape = scan_labels allow out current quotes true raw in
    let quote = scan_labels allow out (current ++ ch ∷ []) (not quotes) false raw in
    let next = scan_labels allow (flush_label allow out current) [] quotes false raw in
    if escaped
    then plain
    else if ch == 92 && quotes
    then escape
    else if ch == 34
    then quote
    else if ch == b',' && not quotes
    then next
    else plain

unfoldable pub parse_labels : Bytes → Option (Bytes → Bool) → List Bytes
parse_labels raw allow = scan_labels allow [] [] false false raw
