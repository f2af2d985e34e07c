-- ===== src/Nginx/AccessLog/Reservoir.antt =====
-- internal/collectors/nginx/accesslog.go: `reservoir`.
use prostometrics_agent.Base.{
  ℕ, ◌+◌, List, [], ◌∷◌, ◌++◌, ◌≡◌, arith, if◌then◌else◌, ltb, length, length-append, length-set,
  set, min, All, All-append, All-set, Bool-cases, inl, inr, ◌∙◌,
}

-- `offered` is an int; it counts lines of one tick, far below its bound.
pub record Reservoir (F : Type 0) : Type 0 where
  pub samples : List F
  pub limit : ℕ
  pub offered : ℕ

module _ {F : Type 0} where
  unfoldable pub new_reservoir : ℕ → Reservoir F
  new_reservoir limit = record { samples = []; limit = limit; offered = 0 }

  -- `idx` is what `r.Intn(s.offered)` returns, where it is called.
  unfoldable pub offer : Reservoir F → ℕ → F → Reservoir F
  offer s idx v =
      if ltb (length s.samples) s.limit
      then record s { samples = s.samples ++ v ∷ []; offered = s.offered + 1 }
      else if ltb idx s.limit
      then record s { samples = set s.samples idx v; offered = s.offered + 1 }
      else record s { offered = s.offered + 1 }

  -- `offer` for each value, with the random index that comes with it.
  unfoldable pub offer_all : Reservoir F → List (ℕ × F) → Reservoir F
  offer_all s [] = s
  offer_all s ((idx, v) ∷ rest) = offer_all (offer s idx v) rest

  offer_lem :
      (s : Reservoir F) (idx : ℕ) (v : F)
      → length s.samples ≡ min s.limit s.offered
      → ((offer s idx v).limit ≡ s.limit)
        × ((offer s idx v).offered ≡ s.offered + 1)
        × (length (offer s idx v).samples ≡ min s.limit (s.offered + 1))
  unfolding offer
  offer_lem s idx v h = (
    ground arith,
    ground arith,
    ground (arith, length-append s.samples (v ∷ []), length-set s.samples idx v),
  )

  offer-All :
      (P : F → Type 0) (s : Reservoir F) (idx : ℕ) (v : F)
      → P v
      → All P s.samples
      → All P (offer s idx v).samples
  unfolding offer
  offer-All P s idx v pv h = elim (Bool-cases (ltb (length s.samples) s.limit)) [
    | inl e ↦ rw e (All-append P s.samples (v ∷ []) h (pv, tt))
    | inr e ↦ elim (Bool-cases (ltb idx s.limit)) [
      | inl k ↦ rw (e, k) (All-set P s.samples idx v pv h)
      | inr k ↦ rw (e, k) h
    ]
  ]

  offer_all-from :
      (P : F → Type 0) (values : List (ℕ × F)) (s : Reservoir F)
      → length s.samples ≡ min s.limit s.offered
      → All P s.samples
      → All (λ p. P (p.1)) values
      → (length (offer_all s values).samples ≡ min s.limit (s.offered + length values))
        × ((offer_all s values).offered ≡ s.offered + length values)
        × All P (offer_all s values).samples
  unfolding offer_all
  offer_all-from P [] s full old h = (omega arith, omega arith, old)
  offer_all-from P ((idx, v) ∷ rest) s full old h =
      let (lim, count, size) = offer_lem s idx v full in
      let (a, b, c) =
        offer_all-from P rest (offer s idx v) (omega arith) (offer-All P s idx v h.0 old) h.1 in
      (omega arith, omega arith, c)

  -- The reservoir holds as many samples as were offered up to its limit, never more, and counts what
  -- was offered; each sample is one of the values offered, whatever the random indices were.
  pub offer_all_lem :
      (limit : ℕ) (values : List (ℕ × F)) (P : F → Type 0)
      → All (λ p. P (p.1)) values
      → (length (offer_all (new_reservoir limit) values).samples ≡ min limit (length values))
        × ((offer_all (new_reservoir limit) values).offered ≡ length values)
        × All P (offer_all (new_reservoir limit) values).samples
  offer_all_lem limit values P h =
      let (a, b, c) =
        offer_all-from P values (new_reservoir limit) (unfold new_reservoir in omega arith)
          (unfold new_reservoir in tt) h in
      unfold new_reservoir in (a ∙ omega arith, b ∙ omega arith, c)
