-- ===== src/Nginx/AccessLog/Line/Bare.antt =====
-- The times of a line whose fields do not name them.
use prostometrics_agent.Base.{
  List, [], ◌∷◌, ◌≡◌, inl, inr, refl, sym, ◌∙◌, none, some, Bytes, Option-cases,
}
use prostometrics_agent.Floats.{Floats}
use prostometrics_agent.Nginx.AccessLog.Line.{Times, bare_duration, bare_times}
use prostometrics_agent.Nginx.AccessLog.Line.Entries.{bare_skip, bare_take}

module _ (fl : Floats) where
  open fl use {F}

  -- The durations in a list of fields, in order.
  abbrev pub durations : List Bytes → List F
  durations [] = []
  durations (f ∷ fs) = elim (bare_duration fl f) [ none ↦ durations fs | some v ↦ v ∷ durations fs ]

  abbrev pub first_two : List F → Times fl
  first_two [] = (none, none)
  first_two (v ∷ []) = (some v, none)
  first_two (v ∷ u ∷ vs) = (some v, some u)

  one_more : (r : F) (vs : List F) → Times fl
  one_more r [] = (some r, none)
  one_more r (u ∷ vs) = (some r, some u)

  bare_times-second :
      (fs : List Bytes) (r : F) → bare_times fl fs (some r, none) ≡ one_more r (durations fs)
  unfolding one_more
  bare_times-second [] r = unfold bare_times in refl
  bare_times-second (f ∷ fs) r = elim (Option-cases (bare_duration fl f)) [
    | inl e ↦ rw (bare_skip fl f fs (some r, none) e, e, durations) (bare_times-second fs r)
    | inr (v, e) ↦ rw (bare_take fl f fs v (some r, none) e, e, durations)
  ]

  first-one_more : (v : F) (vs : List F) → first_two (v ∷ vs) ≡ one_more v vs
  unfolding one_more
  first-one_more v [] = refl
  first-one_more v (u ∷ vs) = refl

  -- Without a named form the request time is the first bare duration after the quoted fields, and
  -- the upstream time is the second.
  pub bare_times_lem : (fs : List Bytes) → bare_times fl fs (none, none) ≡ first_two (durations fs)
  bare_times_lem [] = unfold bare_times in refl
  bare_times_lem (f ∷ fs) = elim (Option-cases (bare_duration fl f)) [
    | inl e ↦ rw (bare_skip fl f fs (none, none) e, e, durations) (bare_times_lem fs)
    | inr (v, e) ↦
        rw (bare_take fl f fs v (none, none) e, e, durations)
          (bare_times-second fs v ∙ sym (first-one_more v (durations fs)))
  ]
