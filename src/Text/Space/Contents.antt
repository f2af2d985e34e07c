-- ===== src/Text/Space/Contents.antt =====
-- Trimming and splitting into fields only take bytes away.
use mathlib.Core.List.{reverse-append}
use prostometrics_agent.Base.{
  ℕ, zero, suc, ◌-◌, [], ◌∷◌, ◌++◌, ◌≢◌, reverse, Bytes, All, All-append, ◌==◌, Bool-cases, inl,
  inr,
}
use prostometrics_agent.Text.Space.{
  space_width, space_width_back, trim_with, trim_space, flush, fields_from, fields,
}

module _ {κ} (P : ℕ → Type κ) where
  All-reverse : (s : Bytes) → All P s → All P (reverse s)
  All-reverse [] h = tt
  All-reverse (c ∷ s) (pc, h) =
      rw (reverse-append (c ∷ []) s) (All-append P (reverse s) (c ∷ []) (All-reverse s h) (pc, tt))

  trim_with-All : (width : Bytes → ℕ) (k : ℕ) (s : Bytes) → All P s → All P (trim_with width k s)
  unfolding trim_with
  trim_with-All width k [] h = tt
  trim_with-All width (suc k) (c ∷ s) h = trim_with-All width k s h.1
  trim_with-All width zero (c ∷ s) h = elim (Bool-cases (width (c ∷ s) == 0)) [
    | inl e ↦ rw e h
    | inr e ↦ rw e (trim_with-All width (width (c ∷ s) - 1) s h.1)
  ]

  pub trim_space-All : (s : Bytes) → All P s → All P (trim_space s)
  unfolding trim_space
  trim_space-All s h =
      All-reverse _
        (trim_with-All space_width_back 0 _ (All-reverse _ (trim_with-All space_width 0 s h)))

  flush-All : (cur : Bytes) → All P cur → All (All P) (flush cur)
  flush-All [] h = tt
  flush-All (c ∷ cur) h = (h, tt)

  fields_from-All :
      (k : ℕ) (cur s : Bytes) → All P cur → All P s → All (All P) (fields_from k cur s)
  unfolding fields_from
  fields_from-All k cur [] hc h = flush-All cur hc
  fields_from-All (suc k) cur (c ∷ s) hc h = fields_from-All k cur s hc h.1
  fields_from-All zero cur (c ∷ s) hc h = elim (Bool-cases (space_width (c ∷ s) == 0)) [
    | inl e ↦ rw e (fields_from-All 0 (cur ++ c ∷ []) s (All-append P cur _ hc (h.0, tt)) h.1)
    | inr e ↦ rw e (
        All-append (All P) (flush cur) _ (flush-All cur hc)
          (fields_from-All (space_width (c ∷ s) - 1) [] s tt h.1))
  ]

  pub fields-All : (s : Bytes) → All P s → All (All P) (fields s)
  unfolding fields
  fields-All s h = fields_from-All 0 [] s tt h

-- No field is empty.
flush-ne : (cur : Bytes) → All (λ f. f ≢ []) (flush cur)
flush-ne [] = tt
flush-ne (c ∷ cur) = ((λ h. cc), tt)

fields_from-ne : (k : ℕ) (cur s : Bytes) → All (λ f. f ≢ []) (fields_from k cur s)
unfolding fields_from
fields_from-ne k cur [] = flush-ne cur
fields_from-ne (suc k) cur (c ∷ s) = fields_from-ne k cur s
fields_from-ne zero cur (c ∷ s) = elim (Bool-cases (space_width (c ∷ s) == 0)) [
  | inl e ↦ rw e (fields_from-ne 0 (cur ++ c ∷ []) s)
  | inr e ↦
      rw e
        (All-append _ (flush cur) _ (flush-ne cur) (fields_from-ne (space_width (c ∷ s) - 1) [] s))
]

pub fields-ne-nil : (s : Bytes) → All (λ f. f ≢ []) (fields s)
unfolding fields
fields-ne-nil s = fields_from-ne 0 [] s
