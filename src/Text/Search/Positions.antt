-- ===== src/Text/Search/Positions.antt =====
-- Where the searches stop: nothing before the first position, or after the last, passes the test.

use native.Mathlib.Numerals.{add-one}
use prostometrics_agent.Base.{
  Option, All-take, All-drop, Option-cases, inl, inr, ℕ, zero, suc, ◌<◌, Bool, true, false, [], ◌∷◌,
  ◌++◌, ◌≡◌, refl, none, some, arith, Bytes, All, take, drop, length, ap,
}
use prostometrics_agent.Text.Search.{before_index, after_index, index_where, last_index_where}

module _ (p : ℕ → Bool) where
  abbrev pub Fails : ℕ → Type 0
  Fails c = p c ≡ false

  pub index_where-none : (s : Bytes) → index_where p s ≡ none → All Fails s
  unfolding index_where
  index_where-none [] h = tt
  index_where-none (c ∷ s) h = ground (arith, index_where-none s)

  pub index_where_before : (s : Bytes) (i : ℕ) → index_where p s ≡ some i → All Fails (take i s)
  unfolding index_where
  index_where_before [] i h = cc
  index_where_before (c ∷ s) zero h = tt
  index_where_before (c ∷ s) (suc i) h = ground (arith, index_where_before s i)

  pub index_where_lt : (s : Bytes) (i : ℕ) → index_where p s ≡ some i → i < length s
  unfolding index_where
  index_where_lt [] i h = cc
  index_where_lt (c ∷ s) zero h = omega arith
  index_where_lt (c ∷ s) (suc i) h = ground (arith, index_where_lt s i)

  pub index_where_hit :
      (s : Bytes) (i : ℕ)
      → index_where p s ≡ some i
      → (c : ℕ) × (s ≡ take i s ++ c ∷ drop (suc i) s) × (p c ≡ true)
  unfolding index_where
  index_where_hit [] i h = cc
  index_where_hit (c ∷ s) zero h = (c, refl, ground arith)
  index_where_hit (c ∷ s) (suc i) h =
      let (d, e, k) = index_where_hit s i (ground arith) in (d, ap (◌∷◌ c) e, k)

  pub last_index_where-none : (s : Bytes) → last_index_where p s ≡ none → All Fails s
  unfolding last_index_where
  last_index_where-none [] h = tt
  last_index_where-none (c ∷ s) h = ground (arith, last_index_where-none s)

  pub last_index_where_after :
      (s : Bytes) (i : ℕ) → last_index_where p s ≡ some i → All Fails (drop (suc i) s)
  unfolding last_index_where
  last_index_where_after [] i h = cc
  last_index_where_after (c ∷ s) zero h = ground (arith, last_index_where-none s)
  last_index_where_after (c ∷ s) (suc i) h = ground (arith, last_index_where_after s i)

  pub before_index-Fails : (s : Bytes) → All Fails (before_index (index_where p s) s)
  unfolding before_index
  before_index-Fails s = elim (Option-cases (index_where p s)) [
    | inl e ↦ rw e (index_where-none s e)
    | inr (i, e) ↦ rw e (index_where_before s i e)
  ]

  pub after_index-Fails : (s : Bytes) → All Fails (after_index 1 (last_index_where p s) s)
  unfolding after_index
  after_index-Fails s = elim (Option-cases (last_index_where p s)) [
    | inl e ↦ rw e (last_index_where-none s e)
    | inr (i, e) ↦ rw (e, add-one i) (last_index_where_after s i e)
  ]

module _ {κ} (P : ℕ → Type κ) where
  pub before_index-All : (o : Option ℕ) (s : Bytes) → All P s → All P (before_index o s)
  unfolding before_index
  before_index-All none s h = h
  before_index-All (some i) s h = All-take P i s h

  pub after_index-All : (n : ℕ) (o : Option ℕ) (s : Bytes) → All P s → All P (after_index n o s)
  unfolding after_index
  after_index-All n none s h = h
  after_index-All n (some i) s h = All-drop P _ s h
