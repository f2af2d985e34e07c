-- ===== src/Config/Generic/Commands.antt =====
-- What a command of a resolved configuration is like.
use prostometrics_agent.Base.{
  false, ◌||◌, List, [], ◌∷◌, Option, none, some, Bytes, codes, ◌≡◌, ◌⊎◌, inl, inr, refl, ◌===◌,
  ===_iff, All, Bool-cases, Option-cases,
}
use prostometrics_agent.Base.Integers.{ℤ, pos}
use prostometrics_agent.Config.Generic.{
  Durations, CommandConfig, kind_of, command_of, resolve_command, prepend_command, resolve_commands,
  parse_every,
}
use prostometrics_agent.Config.Succeeds.{Succeeds}
use prostometrics_agent.Exec.{Command}
use prostometrics_agent.Text.Case.{Lowering}
use prostometrics_agent.Text.Space.{trim_space}

abbrev IsKind : Bytes → Type 0
IsKind kind = (kind ≡ codes "value") ⊎ (kind ≡ codes "counter")

-- A command that can be run and whose readings can be sent.
abbrev pub IsRunnable : Command → Type 0
IsRunnable c = ((c.metric === []) ≡ false) × ((c.path === []) ≡ false) × IsKind c.kind

module _ (lw : Lowering) (du : Durations) (sort : List Bytes → List Bytes) where
  kind_of-IsKind : (kind : Bytes) → Succeeds IsKind (kind_of lw du sort kind)
  kind_of-IsKind kind = elim (Bool-cases ((kind === []) || (kind === codes "value"))) [
    | inl e ↦ rw (e, Succeeds) (inl refl)
    | inr e ↦ elim (Bool-cases (kind === codes "counter")) [
      | inl same ↦ rw (e, same, Succeeds) (inr ((===_iff kind (codes "counter")).0 same))
      | inr other ↦ rw (e, other, Succeeds) tt
    ]
  ]

  command_of-IsRunnable :
      (c : CommandConfig) (kind : Option Bytes) (t : Option ℤ)
      → ((trim_space c.metric === []) ≡ false)
      → ((trim_space c.command === []) ≡ false)
      → Succeeds IsKind kind
      → Succeeds IsRunnable (command_of lw du sort c kind t)
  command_of-IsRunnable c none t m p k = tt
  command_of-IsRunnable c (some kind) none m p k = tt
  command_of-IsRunnable c (some kind) (some t) m p k = (m, p, k)

  resolve_command-IsRunnable :
      (c : CommandConfig) → Succeeds IsRunnable (resolve_command lw du sort c)
  unfolding resolve_command
  resolve_command-IsRunnable c = elim (Bool-cases (trim_space c.metric === [])) [
    | inl e ↦ rw (e, Succeeds) tt
    | inr m ↦ elim (Bool-cases (trim_space c.command === [])) [
      | inl e ↦ rw (m, e, Succeeds) tt
      | inr p ↦
          rw (m, p)
            (command_of-IsRunnable c _ (parse_every du c.timeout (pos 0)) m p
              (kind_of-IsKind (lw.lower (trim_space c.kind))))
    ]
  ]

  prepend_command-AreRunnable :
      (c : Command) (o : Option (List Command))
      → IsRunnable c
      → Succeeds (All IsRunnable) o
      → Succeeds (All IsRunnable) (prepend_command lw du sort c o)
  prepend_command-AreRunnable c none h k = tt
  prepend_command-AreRunnable c (some cs) h k = (h, k)

  pub resolve_commands-AreRunnable :
      (cs : List CommandConfig) → Succeeds (All IsRunnable) (resolve_commands lw du sort cs)
  unfolding resolve_commands
  resolve_commands-AreRunnable [] = tt
  resolve_commands-AreRunnable (c ∷ cs) = elim (Option-cases (resolve_command lw du sort c)) [
    | inl e ↦ rw (e, Succeeds) tt
    | inr (r, e) ↦
        rw (e, Succeeds)
          (prepend_command-AreRunnable r _ (rw (e, Succeeds) at (resolve_command-IsRunnable c))
            (resolve_commands-AreRunnable cs))
  ]
