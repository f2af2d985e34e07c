-- ===== src/Text/Search/Parts.antt =====
-- What the pieces of a cut or a split text hold, and that joining a split gives the text back.
use native.Mathlib.Numerals.{add-one}
use prostometrics_agent.Base.{
  ℕ, ◌+◌, List, [], ◌∷◌, ◌++◌, ◌≡◌, ◌≢◌, refl, sym, ap₂, subst, ◌-◌, ◌∙◌, some, arith, append_assoc,
  append-nil, Bytes, All, All-append, All-take, All-drop, Lacks, ◌==◌, ==_iff, take, drop, length,
  Bool-cases, Option-cases, inl, inr,
}
use prostometrics_agent.Text.Search.{
  index_byte, cut, split_from, split, join, trim_prefix, has_suffix, trim_suffix,
}
use prostometrics_agent.Text.Search.Positions.{index_where_before, index_where_hit, Fails}

pub fails→lacks : (b : ℕ) (s : Bytes) → All (Fails (λ c. c == b)) s → Lacks b s
fails→lacks b [] h = tt
fails→lacks b (c ∷ s) h = (ground arith, fails→lacks b s h.1)

cut_parts :
    (s : Bytes) (b i : ℕ) {before after : Bytes}
    → index_byte s b ≡ some i
    → cut s b ≡ some (before, after)
    → (take i s ≡ before) × (drop (i + 1) s ≡ after)
unfolding cut
cut_parts s b i e h = ground arith

-- A cut text is what stood before the first such byte, the byte, and the rest.
pub cut_lem :
    (s : Bytes) (b : ℕ) {before after : Bytes}
    → cut s b ≡ some (before, after)
    → (s ≡ before ++ b ∷ after) × Lacks b before
unfolding cut
cut_lem s b {before} {after} h = elim (Option-cases (index_byte s b)) [
  | inl e ↦ absurd (ground arith)
  | inr (i, e) ↦
      let (front, back) = cut_parts s b i e h in
      let (c, whole, hit) = index_where_hit (λ c. c == b) s i e in
      (
        whole ∙ ap₂ (λ x y. x ++ y) front (ap₂ ◌∷◌ ((==_iff c b).0 hit) (rw add-one at back)),
        subst (Lacks b) front (fails→lacks b _ (index_where_before (λ c. c == b) s i e)),
      )
]

module _ {κ} (P : ℕ → Type κ) where
  split_from-All : (b : ℕ) (cur s : Bytes) → All P cur → All P s → All (All P) (split_from b cur s)
  unfolding split_from
  split_from-All b cur [] hc h = (hc, tt)
  split_from-All b cur (c ∷ s) hc h = elim (Bool-cases (c == b)) [
    | inl e ↦ rw e (hc, split_from-All b [] s tt h.1)
    | inr e ↦ rw e (split_from-All b (cur ++ c ∷ []) s (All-append P cur _ hc (h.0, tt)) h.1)
  ]

  pub split-All : (s : Bytes) (b : ℕ) → All P s → All (All P) (split s b)
  unfolding split
  split-All s b h = split_from-All b [] s tt h

  pub join-All : (ps : List Bytes) (b : ℕ) → P b → All (All P) ps → All P (join ps b)
  unfolding join
  join-All [] b pb h = tt
  join-All (p ∷ []) b pb h = h.0
  join-All (p ∷ q ∷ ps) b pb h = All-append P p _ h.0 (pb, join-All (q ∷ ps) b pb h.1)

  pub trim_prefix-All : (s p : Bytes) → All P s → All P (trim_prefix s p)
  unfolding trim_prefix
  trim_prefix-All s p h = ground (arith, All-drop P (length p) s h)

  pub trim_suffix-All : (s p : Bytes) → All P s → All P (trim_suffix s p)
  unfolding trim_suffix
  trim_suffix-All s p h = elim (Bool-cases (has_suffix s p)) [
    | inl e ↦ rw e (All-take P (length s - length p) s h)
    | inr e ↦ rw e h
  ]

split_from-ne-nil : (b : ℕ) (cur s : Bytes) → split_from b cur s ≢ []
unfolding split_from
split_from-ne-nil b cur [] h = cc
split_from-ne-nil b cur (c ∷ s) h = ground (arith, split_from-ne-nil b (cur ++ c ∷ []) s)

join-cons : (p : Bytes) (ps : List Bytes) (b : ℕ) → ps ≢ [] → join (p ∷ ps) b ≡ p ++ b ∷ join ps b
unfolding join
join-cons p [] b h = absurd (h refl)
join-cons p (q ∷ ps) b h = refl

join-split_from : (b : ℕ) (cur s : Bytes) → join (split_from b cur s) b ≡ cur ++ s
unfolding split_from
join-split_from b cur [] = unfold join in sym (append-nil cur)
join-split_from b cur (c ∷ s) = elim (Bool-cases (c == b)) [
  | inl e ↦
      rw e (
        rw (join-cons cur _ b (split_from-ne-nil b [] s), join-split_from b [] s, (==_iff c b).0 e))
  | inr e ↦ rw e (rw (join-split_from b (cur ++ c ∷ []) s, append_assoc))
]

pub join-split : (s : Bytes) (b : ℕ) → join (split s b) b ≡ s
unfolding split
join-split s b = join-split_from b [] s

-- No piece of a split text holds the separator.
split_from-Lacks : (b : ℕ) (cur s : Bytes) → Lacks b cur → All (Lacks b) (split_from b cur s)
unfolding split_from
split_from-Lacks b cur [] h = (h, tt)
split_from-Lacks b cur (c ∷ s) h = elim (Bool-cases (c == b)) [
  | inl e ↦ rw e (h, split_from-Lacks b [] s tt)
  | inr e ↦ rw e (split_from-Lacks b (cur ++ c ∷ []) s (All-append _ cur _ h (ground arith, tt)))
]

pub split-Lacks : (s : Bytes) (b : ℕ) → All (Lacks b) (split s b)
unfolding split
split-Lacks s b = split_from-Lacks b [] s tt
