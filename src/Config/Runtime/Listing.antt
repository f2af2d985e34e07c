-- ===== src/Config/Runtime/Listing.antt =====
-- How the lists of a configuration are resolved: none is lost, and one that is on is not empty.
use prostometrics_agent.Base.{
  ℕ, ◌<◌, true, false, List, [], ◌∷◌, Option, none, some, Bytes, codes, ◌≡◌, ◌⊎◌, inl, inr, refl,
  arith, ◌===◌, length, All, Bool-cases, Option-cases, if◌then◌else◌, ltb, ◌+◌, ◌-◌, take, drop,
}
use prostometrics_agent.Base.Integers.{ℤ}
use prostometrics_agent.Config.Enabled.{
  Verdict, off, on, nothing_configured, integration_enabled, integration_enabled_lem,
}
use prostometrics_agent.Config.Generic.{
  Durations, CommandConfig, resolve_target, resolve_targets, resolve_command, resolve_commands,
}
use prostometrics_agent.Config.Instances as Instances
use prostometrics_agent.Config.Instances.{
  resolve_entry, Entry, Instance, resolve_instances, resolve_entries, decide, host_or_address,
  label_between, mysql_label_from_dsn,
}
use prostometrics_agent.Config.Instances.Complete.{
  IsComplete, AreComplete, AreLabelled, resolve_entries-AreComplete,
}
use prostometrics_agent.Config.Runtime.{ListConfig, Listed, listed_of, resolve_list, decided}
use prostometrics_agent.Config.Generic.{prepend, prepend_command}
use prostometrics_agent.Config.Succeeds.{Succeeds}
use prostometrics_agent.Exec.{Command}
use prostometrics_agent.Text.Address.{split_host}
use prostometrics_agent.Text.Search.{index_byte}
use prostometrics_agent.Prom.Scrape.{Target}
use prostometrics_agent.Text.Case.{Lowering}
use prostometrics_agent.Text.Space.{trim_space}

-- An integration is on and has what it needs, each item as it should be, or it is off and has none.
abbrev pub IsListed : {T : Type 0} → (List T → Type 0) → Listed T → Type 0
IsListed P l =
    ((l.enabled ≡ true) × (0 < length l.items) × P l.items) ⊎ ((l.enabled ≡ false) × (l.items ≡ []))

-- As many as were configured.
abbrev pub Keeps : {T U : Type 0} → List T → List U → Type 0
Keeps ts us = length us ≡ length ts

module _ (derive : Bytes → Option Bytes) where
  decide-IsListed :
      (P : List Instance → Type 0) (v : Verdict) (es : List Entry) (o : Option (List Instance))
      → (v ≡ on → 0 < length es)
      → Succeeds (Keeps es) o
      → Succeeds P o
      → Succeeds (IsListed P) (listed_of (decide derive v o))
  decide-IsListed P off es o h n k = inr (refl, refl)
  decide-IsListed P nothing_configured es o h n k = tt
  decide-IsListed P on es none h n k = tt
  decide-IsListed P on es (some is) h n k = inl (refl, omega (arith, h refl, n), k)

  prepend_instance-Keeps :
      (e : Entry) (es : List Entry) (i : Instance) (o : Option (List Instance))
      → Succeeds (Keeps es) o
      → Succeeds (Keeps (e ∷ es)) (Instances.prepend derive i o)
  prepend_instance-Keeps e es i none h = tt
  prepend_instance-Keeps e es i (some is) h = omega (arith, h)

  resolve_entries-Keeps : (es : List Entry) → Succeeds (Keeps es) (resolve_entries derive es)
  unfolding resolve_entries
  resolve_entries-Keeps [] = refl
  resolve_entries-Keeps (e ∷ es) = elim (Option-cases (resolve_entry derive e)) [
    | inl h ↦ rw (h, Succeeds) tt
    | inr (i, h) ↦ rw (h, Succeeds) (prepend_instance-Keeps e es i _ (resolve_entries-Keeps es))
  ]

  list-IsListed :
      (P : List Instance → Type 0) (c : ListConfig)
      → Succeeds P (resolve_entries derive c.instances)
      → Succeeds (IsListed P) (resolve_list derive c)
  unfolding resolve_list resolve_instances
  list-IsListed P c k =
      decide-IsListed P (integration_enabled c.enabled (length c.instances)) c.instances
        (resolve_entries derive c.instances)
        (λ e. ((integration_enabled_lem c.enabled (length c.instances)).0 e).1)
        (resolve_entries-Keeps c.instances) k

  complete :
      (es : List Entry) (o : Option (List Instance))
      → AreComplete es o
      → Succeeds (All IsComplete) o
  complete es none h = tt
  complete es (some is) (n, h) = h

  pub resolve_list-IsListed :
      (c : ListConfig)
      → AreLabelled derive c.instances
      → Succeeds (IsListed (All IsComplete)) (resolve_list derive c)
  resolve_list-IsListed c k =
      list-IsListed (All IsComplete) c
        (complete c.instances _ (resolve_entries-AreComplete derive c.instances k))

  always : {T : Type 0} (o : Option T) → Succeeds (λ t. Unit) o
  always none = tt
  always (some t) = tt

  pub resolve_list-IsFilled :
      (c : ListConfig) → Succeeds (IsListed (λ is. Unit)) (resolve_list derive c)
  resolve_list-IsFilled c = list-IsListed (λ is. Unit) c (always _)

prepend-Keeps :
    (derive : Bytes → Option Bytes) (t r : Target) (ts : List Target) (o : Option (List Target))
    → Succeeds (Keeps ts) o
    → Succeeds (Keeps (t ∷ ts)) (prepend derive r o)
prepend-Keeps derive t r ts none h = tt
prepend-Keeps derive t r ts (some us) h = omega (arith, h)

pub resolve_targets-Keeps :
    (derive : Bytes → Option Bytes) (seen : List Bytes) (ts : List Target)
    → Succeeds (Keeps ts) (resolve_targets derive seen ts)
unfolding resolve_targets
resolve_targets-Keeps derive seen [] = refl
resolve_targets-Keeps derive seen (t ∷ ts) = elim (Option-cases (resolve_target derive seen t)) [
  | inl e ↦ rw (e, Succeeds) tt
  | inr (r, e) ↦
      rw (e, Succeeds)
        (prepend-Keeps derive t r ts _ (resolve_targets-Keeps derive (r.name ∷ seen) ts))
]

pub decided-IsListed :
    {T U : Type 0} (P : List T → Type 0) (v : Verdict) (every : Option ℤ) (us : List U)
    (o : Option (List T))
    → (v ≡ on → 0 < length us)
    → Succeeds (Keeps us) o
    → Succeeds P o
    → Succeeds (IsListed P) (decided v every o)
decided-IsListed P off every us o h k p = inr (refl, refl)
decided-IsListed P nothing_configured every us o h k p = tt
decided-IsListed P on none us o h k p = tt
decided-IsListed P on (some every) us none h k p = tt
decided-IsListed P on (some every) us (some ts) h k p = inl (refl, omega (arith, h refl, k), p)

module _ (lw : Lowering) (du : Durations) (sort : List Bytes → List Bytes) where
  prepend_command-Keeps :
      (c : CommandConfig) (r : Command) (cs : List CommandConfig) (o : Option (List Command))
      → Succeeds (Keeps cs) o
      → Succeeds (Keeps (c ∷ cs)) (prepend_command lw du sort r o)
  prepend_command-Keeps c r cs none h = tt
  prepend_command-Keeps c r cs (some us) h = omega (arith, h)

  pub resolve_commands-Keeps :
      (cs : List CommandConfig) → Succeeds (Keeps cs) (resolve_commands lw du sort cs)
  unfolding resolve_commands
  resolve_commands-Keeps [] = refl
  resolve_commands-Keeps (c ∷ cs) = elim (Option-cases (resolve_command lw du sort c)) [
    | inl e ↦ rw (e, Succeeds) tt
    | inr (r, e) ↦ rw (e, Succeeds) (prepend_command-Keeps c r cs _ (resolve_commands-Keeps cs))
  ]

or_mysql-not_empty :
    (address : Bytes) → ((if address === [] then codes "mysql" else address) === []) ≡ false
unfolding ◌===◌
or_mysql-not_empty address = elim (Bool-cases (address === [])) [
  | inl e ↦ rw e refl
  | inr e ↦ rw e e
]

host_or_address-not_empty :
    (address : Bytes) (host : Option Bytes) → (host_or_address address host === []) ≡ false
host_or_address-not_empty address none = or_mysql-not_empty address
host_or_address-not_empty address (some host) = elim (Bool-cases (host === [])) [
  | inl e ↦ rw e (or_mysql-not_empty address)
  | inr e ↦ rw e e
]

label_between-not_empty :
    (dsn : Bytes) (open' close : Option ℕ) → (label_between dsn open' close === []) ≡ false
unfolding ◌===◌
label_between-not_empty dsn none close = refl
label_between-not_empty dsn (some i) none = refl
label_between-not_empty dsn (some i) (some j) =
    let address : Bytes = trim_space (take (j - (i + 1)) (drop (i + 1) dsn)) in
    elim (Bool-cases (ltb i j)) [
      | inl e ↦ rw e (host_or_address-not_empty address (split_host address))
      | inr e ↦ rw e refl
    ]

mysql_label-not_empty : (c : Bytes) → (mysql_label_from_dsn c === []) ≡ false
unfolding mysql_label_from_dsn
mysql_label-not_empty c = label_between-not_empty c (index_byte c b'(') (index_byte c b')')

pub mysql-AreLabelled : (es : List Entry) → AreLabelled (λ dsn. some (mysql_label_from_dsn dsn)) es
mysql-AreLabelled [] = tt
mysql-AreLabelled (e ∷ es) = (mysql_label-not_empty (trim_space e.connection), mysql-AreLabelled es)
