-- ===== src/Config/Instances/Complete.antt =====
-- What resolved instances are like.
use prostometrics_agent.Base.{
  suc, Bool, true, false, List, [], ◌∷◌, Option, none, some, Bytes, ◌≡◌, inl, inr, refl, ◌===◌,
  length, Bool-cases, Option-cases, All, ap,
}
use prostometrics_agent.Config.Enabled.{Verdict, off, on, nothing_configured, integration_enabled}
use prostometrics_agent.Config.Instances.{
  Entry, Instance, Resolved, refused, resolved, named, label_for, resolve_entry, resolve_entries,
  prepend, finish, decide, resolve_instances,
}
use prostometrics_agent.Config.Succeeds.{Succeeds}
use prostometrics_agent.Text.Space.{trim_space}

-- An instance has a connection string and a label.
abbrev pub IsComplete : Instance → Type 0
IsComplete i = ((i.connection === []) ≡ false) × ((i.label === []) ≡ false)

abbrev Completes : Option Instance → Type 0
Completes none = Unit
Completes (some i) = IsComplete i

-- As many instances as entries, all of them complete.
abbrev pub AreComplete : List Entry → Option (List Instance) → Type 0
AreComplete es none = Unit
AreComplete es (some is) = (length is ≡ length es) × All IsComplete is

-- An integration that is on has an instance for each of its entries.
abbrev pub IsResolved : List Entry → Resolved → Type 0
IsResolved es refused = Unit
IsResolved es (resolved false is) = is ≡ []
IsResolved es (resolved true is) = (length is ≡ length es) × All IsComplete is

-- The label that is derived, if there is one, is not empty.
abbrev pub IsLabelled : (Bytes → Option Bytes) → Bytes → Type 0
IsLabelled derive c = Succeeds (λ l. (l === []) ≡ false) (derive c)

-- So it is for each entry.
abbrev pub AreLabelled : (Bytes → Option Bytes) → List Entry → Type 0
AreLabelled derive es = All (λ (e : Entry). IsLabelled derive (trim_space e.connection)) es

module _ (derive : Bytes → Option Bytes) where
  named-Completes :
      (c explicit : Bytes)
      → (c === []) ≡ false
      → IsLabelled derive c
      → Completes (named derive c (label_for derive c explicit))
  named-Completes c explicit h k = elim (Bool-cases (explicit === [])) [
    | inr e ↦ rw (e, Completes) (h, e)
    | inl e ↦ elim (Option-cases (derive c)) [
      | inl d ↦ rw (e, d, Completes) tt
      | inr (l, d) ↦ rw (e, d, Completes) (h, rw (d, Succeeds) at k)
    ]
  ]

  resolve_entry-Completes :
      (e : Entry) → IsLabelled derive (trim_space e.connection) → Completes (resolve_entry derive e)
  unfolding resolve_entry
  resolve_entry-Completes e k = elim (Bool-cases (trim_space e.connection === [])) [
    | inl h ↦ rw (h, Completes) tt
    | inr h ↦ rw h (named-Completes (trim_space e.connection) (trim_space e.label) h k)
  ]

  prepend-AreComplete :
      (e : Entry) (es : List Entry) (i : Instance) (o : Option (List Instance))
      → IsComplete i
      → AreComplete es o
      → AreComplete (e ∷ es) (prepend derive i o)
  prepend-AreComplete e es i none h k = tt
  prepend-AreComplete e es i (some is) h (n, k) = (ap suc n, (h, k))

  pub resolve_entries-AreComplete :
      (es : List Entry) → AreLabelled derive es → AreComplete es (resolve_entries derive es)
  unfolding resolve_entries
  resolve_entries-AreComplete [] k = (refl, tt)
  resolve_entries-AreComplete (e ∷ es) (k, ks) = elim (Option-cases (resolve_entry derive e)) [
    | inl h ↦ rw (h, AreComplete) tt
    | inr (i, h) ↦
        rw (h, AreComplete)
          (prepend-AreComplete e es i (resolve_entries derive es)
            (rw (h, Completes) at (resolve_entry-Completes e k))
            (resolve_entries-AreComplete es ks))
  ]

  finish-IsResolved :
      (es : List Entry) (o : Option (List Instance))
      → AreComplete es o
      → IsResolved es (finish derive o)
  finish-IsResolved es none h = tt
  finish-IsResolved es (some is) h = h

  decide-IsResolved :
      (es : List Entry) (v : Verdict) (o : Option (List Instance))
      → AreComplete es o
      → IsResolved es (decide derive v o)
  decide-IsResolved es off o h = refl
  decide-IsResolved es nothing_configured o h = tt
  decide-IsResolved es on o h = finish-IsResolved es o h

  -- Resolving a list of instances leaves none out: it is refused as a whole, or the integration is
  -- off and has no instances, or it is on and has one for each entry, with a connection string and a
  -- label that are not empty. No label that is derived of an entry may be empty.
  pub resolve_instances_lem :
      (flag : Option Bool) (entries : List Entry)
      → AreLabelled derive entries
      → IsResolved entries (resolve_instances derive flag entries)
  unfolding resolve_instances
  resolve_instances_lem flag entries k =
      decide-IsResolved entries (integration_enabled flag (length entries))
        (resolve_entries derive entries) (resolve_entries-AreComplete entries k)
