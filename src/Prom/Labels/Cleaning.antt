-- ===== src/Prom/Labels/Cleaning.antt =====
-- What the labels of a sample are like.
use prostometrics_agent.Base.{
  ℕ, ◌≤◌, Bool, true, false, not, List, [], ◌∷◌, ◌++◌, ◌≡◌, ◌≢◌, refl, arith, Option, none, some,
  Bytes, codes, map, ◌===◌, leb, length, Bool-cases, inl, inr, All, All-append, length-append,
}
use prostometrics_agent.Prom.Labels.{
  max_labels_per_sample, clean_byte, unquote, unquote_label_value, allows, add_label, add_pair,
  flush_label, scan_labels, parse_labels,
}
use prostometrics_agent.Text.Search.{cut}
use prostometrics_agent.Text.Space.{trim_space}
use prostometrics_agent.Text.Space.Contents.{trim_space-All}

abbrev pub IsClean : ℕ → Type 0
IsClean c = (c ≢ b'|') × (c ≢ 13) × (c ≢ 10)

-- A label has a name that the caller allows and that is not `workload`, and a value that is not
-- empty and has neither a bar nor a line break.
abbrev pub IsLabel : Option (Bytes → Bool) → Bytes → Type 0
IsLabel allow l =
    (name : Bytes) × (value : Bytes) × (l ≡ name ++ b'=' ∷ value)
    × ((name === []) ≡ false)
    × ((name === codes "workload") ≡ false)
    × (allows allow name ≡ true)
    × ((value === []) ≡ false)
    × All IsClean value

abbrev pub AreLabels : Option (Bytes → Bool) → List Bytes → Type 0
AreLabels allow ls = (length ls ≤ max_labels_per_sample) × All (IsLabel allow) ls

map-IsClean : (s : Bytes) → All IsClean (map clean_byte s)
map-IsClean [] = tt
map-IsClean (c ∷ s) = (ground arith, map-IsClean s)

unquote_label_value-IsClean : (raw : Bytes) → All IsClean (unquote_label_value raw)
unfolding unquote_label_value
unquote_label_value-IsClean raw =
    trim_space-All IsClean (map clean_byte (unquote raw)) (map-IsClean (unquote raw))

add_label-labels :
    (allow : Option (Bytes → Bool)) (out : List Bytes) (name value : Bytes)
    → AreLabels allow out
    → (name === []) ≡ false
    → (name === codes "workload") ≡ false
    → allows allow name ≡ true
    → All IsClean value
    → AreLabels allow (add_label out name value)
unfolding ◌===◌
add_label-labels allow out name [] h e w a v = h
add_label-labels allow out name (c ∷ value) h e w a v =
    elim (Bool-cases (leb max_labels_per_sample (length out))) [
      | inl full ↦ rw full h
      | inr room ↦ rw room (
        ground (arith, length-append out ((name ++ b'=' ∷ c ∷ value) ∷ [])),
        All-append (IsLabel allow) out ((name ++ b'=' ∷ c ∷ value) ∷ []) h.1
            ((name, c ∷ value, refl, e, w, a, refl, v), tt),
      )
    ]

add_pair-labels :
    (allow : Option (Bytes → Bool)) (out : List Bytes) (pair : Option (Bytes × Bytes))
    → AreLabels allow out
    → AreLabels allow (add_pair allow out pair)
add_pair-labels allow out none h = h
add_pair-labels allow out (some (raw_name, raw)) h =
    elim (Bool-cases (trim_space raw_name === [])) [
      | inl e ↦ rw e h
      | inr e ↦ elim (Bool-cases (trim_space raw_name === codes "workload")) [
        | inl w ↦ rw (e, w) h
        | inr w ↦ elim (Bool-cases (allows allow (trim_space raw_name))) [
          | inr a ↦ rw (e, w, a) h
          | inl a ↦
              rw (e, w, a)
                (add_label-labels allow out (trim_space raw_name)
                  (unquote_label_value (trim_space raw)) h e w a
                  (unquote_label_value-IsClean (trim_space raw)))
        ]
      ]
    ]

flush_label-labels :
    (allow : Option (Bytes → Bool)) (out : List Bytes) (current : Bytes)
    → AreLabels allow out
    → AreLabels allow (flush_label allow out current)
unfolding flush_label
flush_label-labels allow out current h = elim (Bool-cases (trim_space current === [])) [
  | inl e ↦ rw e h
  | inr e ↦ rw e (add_pair-labels allow out (cut (trim_space current) b'=') h)
]

scan_labels-labels :
    (allow : Option (Bytes → Bool)) (out : List Bytes) (current : Bytes) (quotes escaped : Bool)
    (raw : Bytes)
    → AreLabels allow out
    → AreLabels allow (scan_labels allow out current quotes escaped raw)
unfolding scan_labels
scan_labels-labels allow out current quotes escaped [] h = flush_label-labels allow out current h
scan_labels-labels allow out current quotes escaped (ch ∷ raw) h = ground (
  arith,
  h,
  scan_labels-labels allow out (current ++ ch ∷ []) quotes false raw h,
  scan_labels-labels allow out current quotes true raw h,
  scan_labels-labels allow out (current ++ ch ∷ []) (not quotes) false raw h,
  scan_labels-labels allow (flush_label allow out current) [] quotes false raw
      (flush_label-labels allow out current h),
)

-- Whatever an endpoint writes, a sample gets at most eight labels, each of them a name that the
-- caller allows, not empty and not `workload`, and a value that is not empty and holds no bar and
-- no line break.
pub parse_labels_lem :
    (allow : Option (Bytes → Bool)) (raw : Bytes) → AreLabels allow (parse_labels raw allow)
unfolding parse_labels
parse_labels_lem allow raw = scan_labels-labels allow [] [] false false raw (omega arith, tt)
