-- ===== src/Retry/Backoff.antt =====
-- Instances do not disturb one another, and one that failed is left alone.
use prostometrics_agent.Base.{
  ℕ, ◌+◌, ◌<◌, true, false, List, [], ◌∷◌, ◌++◌, ◌≡◌, refl, inl, inr, ltb, All, Bool-cases, lt→ltb,
  append_assoc,
}
use prostometrics_agent.Retry.{Slot, Attempt, Turn, settle, collect_turns}

module _ {A E S : Type 0} (retry_every : ℕ) (collect_instance : A → S → Attempt E S)
    (reset : S → S) where
  abbrev collect : ℕ → List (Turn A S) → List E × List (Slot S)
  collect now ts = collect_turns retry_every collect_instance reset now ts

  abbrev both : List E × List (Slot S) → List E × List (Slot S) → List E × List (Slot S)
  both (s, xs) (u, ys) = (s ++ u, xs ++ ys)

  -- While the context is not cancelled, the instances of a collector are collected as if each were
  -- alone: what some of them send and keep, failures included, is what it is without the others.
  pub collect-append :
      (now : ℕ) (ts us : List (Turn A S))
      → All (λ t. t.cancelled ≡ false) ts
      → collect now (ts ++ us) ≡ both (collect now ts) (collect now us)
  unfolding collect_turns
  collect-append now [] us h = refl
  collect-append now (t ∷ ts) us (h, hs) = elim (Bool-cases (ltb now t.slot.next_attempt)) [
    | inl wait ↦ rw (wait, collect-append now ts us hs) refl
    | inr due ↦ rw (due, h, collect-append now ts us hs, append_assoc)
  ]

  waits-collect :
      (now : ℕ) (t : Turn A S) (ts us : List (Turn A S))
      → All (λ t. t.cancelled ≡ false) ts
      → now < t.slot.next_attempt
      → collect now (ts ++ t ∷ us)
        ≡ ((collect now (ts ++ us)).0, (collect now ts).1 ++ t.slot ∷ (collect now us).1)
  unfolding collect_turns
  waits-collect now t ts us h early =
      rw (collect-append now ts (t ∷ us) h, collect-append now ts us h, lt→ltb _ _ early)

  -- An instance whose collection fails is left alone until the retry interval has passed: it keeps
  -- the time of its failure plus the interval, and a round before that time sends exactly what it
  -- would send without the instance, and keeps the instance as it was. The instances before it must
  -- have met no cancelled context.
  pub backs_off :
      (now later : ℕ) (t u : Turn A S) (ts us ts' us' : List (Turn A S))
      → All (λ t. t.cancelled ≡ false) ts
      → t.cancelled ≡ false
      → ltb now t.slot.next_attempt ≡ false
      → (collect_instance t.answers t.slot.state).failed ≡ true
      → All (λ t. t.cancelled ≡ false) ts'
      → u.slot
        ≡ settle retry_every collect_instance reset now t.slot
            (collect_instance t.answers t.slot.state)
      → later < now + retry_every
      → ((collect now (ts ++ t ∷ us)).1 ≡ (collect now ts).1 ++ u.slot ∷ (collect now us).1)
        × (u.slot.next_attempt ≡ now + retry_every)
        × (collect later (ts' ++ u ∷ us') ≡ (
          (collect later (ts' ++ us')).0,
          (collect later ts').1 ++ u.slot ∷ (collect later us').1,
        ))
  unfolding collect_turns settle
  backs_off now later t u ts us ts' us' h c due failed h' same early =
      let until : u.slot.next_attempt ≡ now + retry_every = rw (same, failed) in
      (
        rw (collect-append now ts (t ∷ us) h, due, c, same),
        until,
        waits-collect later u ts' us' h' (rw until early),
      )
