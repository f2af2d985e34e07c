-- ===== src/Exec/Labels.antt =====
-- internal/collectors/exec/collector.go: `mergeLabels`.
use prostometrics_agent.Base.{
  ℕ, ◌+◌, ◌≤◌, Bool, true, false, List, [], ◌∷◌, ◌++◌, ◌≡◌, ◌≢◌, refl, ◌∙◌, arith, Option, none,
  some, Bytes, if◌then◌else◌, ◌===◌, ===_iff, elem_bytes, Bool-cases, Option-cases, inl, inr,
}
use prostometrics_agent.Text.Search.{cut}

unfoldable pub merge_from : List Bytes → List Bytes → List Bytes
merge_from seen [] = []
merge_from seen (pair ∷ pairs) = elim (cut pair b'=') [
  | none ↦ merge_from seen pairs
  | some (name, value) ↦
      if elem_bytes name seen then merge_from seen pairs else pair ∷ merge_from (name ∷ seen) pairs
]

unfoldable pub merge_labels : List Bytes → List Bytes → List Bytes
merge_labels configured [] = configured
merge_labels configured (p ∷ printed) = merge_from [] (configured ++ p ∷ printed)

abbrev is_named : Bytes → Option (Bytes × Bytes) → Bool
is_named name none = false
is_named name (some (n, value)) = n === name

-- A label that sets a name.
abbrev pub names : Bytes → Bytes → Bool
names name pair = is_named name (cut pair b'=')

abbrev pub first_named : Bytes → List Bytes → Option Bytes
first_named name [] = none
first_named name (p ∷ ps) = if names name p then some p else first_named name ps

abbrev pub count_named : Bytes → List Bytes → ℕ
count_named name [] = 0
count_named name (p ∷ ps) = (if names name p then 1 else 0) + count_named name ps

merge_step :
    (seen : List Bytes) (p : Bytes) (ps : List Bytes) (n v : Bytes)
    → cut p b'=' ≡ some (n, v)
    → merge_from seen (p ∷ ps)
      ≡ (if elem_bytes n seen then merge_from seen ps else p ∷ merge_from (n ∷ seen) ps)
unfolding merge_from
merge_step seen p ps n v e = rw (e, merge_from)

merge_skip :
    (seen : List Bytes) (p : Bytes) (ps : List Bytes)
    → cut p b'=' ≡ none
    → merge_from seen (p ∷ ps) ≡ merge_from seen ps
unfolding merge_from
merge_skip seen p ps e = rw (e, merge_from)

elem-cons :
    (name n : Bytes) (seen : List Bytes)
    → elem_bytes name (n ∷ seen) ≡ (if n === name then true else elem_bytes name seen)
unfolding elem_bytes
elem-cons name n seen = ground (arith, ===_iff name n, ===_iff n name)

count_kept :
    (name n : Bytes) (seen : List Bytes) (rest : ℕ)
    → elem_bytes n seen ≡ false
    → rest ≤ (if (if n === name then true else elem_bytes name seen) then 0 else 1)
    → (if n === name then 1 else 0) + rest ≤ (if elem_bytes name seen then 0 else 1)
count_kept name n seen rest k h = elim (Bool-cases (n === name)) [
  | inl same ↦
      let fresh : elem_bytes name seen ≡ false = rw (← (===_iff n name).0 same) k in
      rw (same, fresh) (omega (arith, rw same at h))
  | inr other ↦ rw other (omega (arith, rw other at h))
]

count-merge_from :
    (name : Bytes) (ps seen : List Bytes)
    → count_named name (merge_from seen ps) ≤ (if elem_bytes name seen then 0 else 1)
count-merge_from name [] seen = unfold merge_from in ground arith
count-merge_from name (p ∷ ps) seen = elim (Option-cases (cut p b'=')) [
  | inl e ↦ rw (merge_skip seen p ps e) (count-merge_from name ps seen)
  | inr ((n, v), e) ↦ rw (merge_step seen p ps n v e) (elim (Bool-cases (elem_bytes n seen)) [
    | inl k ↦ rw k (count-merge_from name ps seen)
    | inr k ↦
        rw (k, e)
          (count_kept name n seen _ k
            (rw (elem-cons name n seen) at (count-merge_from name ps (n ∷ seen))))
  ])
]

first-merge_from :
    (name : Bytes) (ps seen : List Bytes)
    → elem_bytes name seen ≡ false
    → first_named name (merge_from seen ps) ≡ first_named name ps
first-merge_from name [] seen h = unfold merge_from in refl
first-merge_from name (p ∷ ps) seen h = elim (Option-cases (cut p b'=')) [
  | inl e ↦ rw (merge_skip seen p ps e, e) (first-merge_from name ps seen h)
  | inr ((n, v), e) ↦ rw (merge_step seen p ps n v e) (elim (Bool-cases (elem_bytes n seen)) [
    | inl k ↦ elim (Bool-cases (n === name)) [
      | inl same ↦ cc ((===_iff n name).0 same, h, k)
      | inr other ↦ rw (k, e, other) (first-merge_from name ps seen h)
    ]
    | inr k ↦ elim (Bool-cases (n === name)) [
      | inl same ↦ rw (k, e, same)
      | inr other ↦
          rw (k, e, other)
            (first-merge_from name ps (n ∷ seen) (elem-cons name n seen ∙ rw other h))
    ]
  ])
]

-- Where a command prints labels, no name is set twice in what is reported, and each name has the
-- first label that sets it, the configured one if there is one, and otherwise the first printed.
pub merge_labels_lem :
    (configured printed : List Bytes) (name : Bytes)
    → printed ≢ []
    → (count_named name (merge_labels configured printed) ≤ 1)
      × (first_named name (merge_labels configured printed)
          ≡ first_named name (configured ++ printed))
unfolding merge_labels
merge_labels_lem configured [] name ne = absurd (ne refl)
merge_labels_lem configured (p ∷ printed) name ne =
    unfold elem_bytes in
    (
      count-merge_from name (configured ++ p ∷ printed) [],
      first-merge_from name (configured ++ p ∷ printed) [] refl,
    )
