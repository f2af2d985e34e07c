-- ===== src/Config/Generic/Distinct.antt =====
-- No two targets share a name.
use prostometrics_agent.Base.{
  false, List, [], ◌∷◌, Option, none, some, Bytes, ◌≡◌, ◌===◌, elem_bytes, Bool-cases, Option-cases,
  inl, inr,
}
use prostometrics_agent.Config.Generic.{
  name_for, new_target, resolve_target, prepend, resolve_targets,
}
use prostometrics_agent.Prom.Scrape.{Target}
use prostometrics_agent.Text.Space.{trim_space}

-- The names are new, and each differs from those after it.
abbrev pub AreDistinct : List Bytes → List Target → Type 0
AreDistinct seen [] = Unit
AreDistinct seen (t ∷ ts) = (elem_bytes t.name seen ≡ false) × AreDistinct (t.name ∷ seen) ts

module _ (derive : Bytes → Option Bytes) where
  abbrev IsNew : List Bytes → Option Target → Type 0
  IsNew seen none = Unit
  IsNew seen (some t) = elem_bytes t.name seen ≡ false

  new_target-IsNew :
      (t : Target) (endpoint : Bytes) (seen : List Bytes) (o : Option Bytes)
      → IsNew seen (new_target derive t endpoint seen o)
  new_target-IsNew t endpoint seen none = tt
  new_target-IsNew t endpoint seen (some name) = elim (Bool-cases (elem_bytes name seen)) [
    | inl e ↦ rw (e, IsNew) tt
    | inr e ↦ rw (e, IsNew) e
  ]

  resolve_target-IsNew :
      (seen : List Bytes) (t : Target) → IsNew seen (resolve_target derive seen t)
  unfolding resolve_target
  resolve_target-IsNew seen t = elim (Bool-cases (trim_space t.url === [])) [
    | inl e ↦ rw (e, IsNew) tt
    | inr e ↦ rw e (
        new_target-IsNew t (trim_space t.url) seen
          (name_for derive (trim_space t.url) (trim_space t.name)))
  ]

  abbrev pub Distinct : List Bytes → Option (List Target) → Type 0
  Distinct seen none = Unit
  Distinct seen (some ts) = AreDistinct seen ts

  prepend-Distinct :
      (seen : List Bytes) (t : Target) (o : Option (List Target))
      → elem_bytes t.name seen ≡ false
      → Distinct (t.name ∷ seen) o
      → Distinct seen (prepend derive t o)
  prepend-Distinct seen t none h k = tt
  prepend-Distinct seen t (some ts) h k = (h, k)

  -- Targets that are resolved have names of their own: a configuration in which two would share one,
  -- given or derived, is refused.
  pub resolve_targets_lem :
      (seen : List Bytes) (ts : List Target) → Distinct seen (resolve_targets derive seen ts)
  unfolding resolve_targets
  resolve_targets_lem seen [] = tt
  resolve_targets_lem seen (t ∷ ts) = elim (Option-cases (resolve_target derive seen t)) [
    | inl e ↦ rw (e, Distinct) tt
    | inr (r, e) ↦
        rw (e, Distinct)
          (prepend-Distinct seen r (resolve_targets derive (r.name ∷ seen) ts)
            (rw (e, IsNew) at (resolve_target-IsNew seen t))
            (resolve_targets_lem (r.name ∷ seen) ts))
  ]
