-- ===== src/Entry/Start/Scheduled.antt =====
-- The intervals of a configuration that is resolved.
use prostometrics_agent.Base.{
  Bool, false, List, [], Option, none, some, Bytes, ◌≡◌, ◌⊎◌, refl, inl, inr, arith, Bool-cases,
  ◌===◌,
}
use prostometrics_agent.Base.Integers.{ℤ, pos, ◌<ℤ◌, ltb_ℤ}
use prostometrics_agent.Config.Enabled.{Verdict, off, on, nothing_configured}
use prostometrics_agent.Config.Generic.{Durations, positive, parse_every}
use prostometrics_agent.Config.Runtime.{
  FileConfig, RuntimeConfig, Listed, decided, resolve_prometheus, resolve_exec, with_workload,
  resolve_runtime_config, prometheus_every, exec_every,
}
use prostometrics_agent.Config.Succeeds.{Succeeds, Succeeds-bind, follows}
use prostometrics_agent.Config.Runtime.Built.{IsBuilt, with_file-IsBuilt, holds}
use prostometrics_agent.Config.Runtime.{PrometheusConfig, ExecConfig}
use prostometrics_agent.Labels.{Urls}
use prostometrics_agent.Nginx.Endpoint.{Endpoints}
use prostometrics_agent.Text.Case.{Lowering}
use prostometrics_agent.Text.Space.{trim_space}

-- What the configuration gives to a ticker.
abbrev pub IsScheduled : {T : Type 0} → Listed T → Type 0
IsScheduled l = (l.enabled ≡ false) ⊎ (pos 0 <ℤ l.every)

pub record AreScheduled (r : RuntimeConfig) : Type 0 where
  pub prometheus_scheduled : IsScheduled r.prometheus
  pub exec_scheduled : IsScheduled r.exec

positive-lt : (o : Option ℤ) → Succeeds (λ d. pos 0 <ℤ d) (positive o)
positive-lt none = tt
positive-lt (some d) = elim (Bool-cases (ltb_ℤ (pos 0) d)) [
  | inl e ↦ rw (e, Succeeds) (ground arith)
  | inr e ↦ rw (e, Succeeds) tt
]

parse_every-lt :
    (du : Durations) (raw : Bytes) (fallback : ℤ)
    → pos 0 <ℤ fallback
    → Succeeds (λ d. pos 0 <ℤ d) (parse_every du raw fallback)
unfolding parse_every
parse_every-lt du raw fallback h = elim (Bool-cases (trim_space raw === [])) [
  | inl e ↦ rw (e, Succeeds) h
  | inr e ↦ rw e (positive-lt (du.parse_duration (trim_space raw)))
]

decided-IsScheduled :
    {T : Type 0} (v : Verdict) (every : Option ℤ) (o : Option (List T))
    → Succeeds (λ d. pos 0 <ℤ d) every
    → Succeeds IsScheduled (decided v every o)
decided-IsScheduled off every o h = inl refl
decided-IsScheduled nothing_configured every o h = tt
decided-IsScheduled on none o h = tt
decided-IsScheduled on (some every) none h = tt
decided-IsScheduled on (some every) (some ts) h = inr h

module _ (e : Endpoints) (urls : Urls) (lw : Lowering) (du : Durations)
    (sort : List Bytes → List Bytes) where
  resolve_prometheus-IsScheduled :
      (c : PrometheusConfig) → Succeeds IsScheduled (resolve_prometheus e urls lw du sort c)
  unfolding resolve_prometheus
  resolve_prometheus-IsScheduled c =
      decided-IsScheduled _ _ _ (parse_every-lt du c.every prometheus_every (omega arith))

  resolve_exec-IsScheduled :
      (c : ExecConfig) → Succeeds IsScheduled (resolve_exec e urls lw du sort c)
  unfolding resolve_exec
  resolve_exec-IsScheduled c =
      decided-IsScheduled _ _ _ (parse_every-lt du c.every exec_every (omega arith))

  with_workload-AreScheduled :
      (cfg : Option FileConfig) (workload : Bytes)
      → Succeeds AreScheduled (with_workload e urls lw du sort cfg workload)
  with_workload-AreScheduled none workload = record {
    prometheus_scheduled = inl refl;
    exec_scheduled = inl refl;
  }
  with_workload-AreScheduled (some cfg) workload =
      follows (IsBuilt e urls lw du sort workload cfg) AreScheduled _
        (with_file-IsBuilt e urls lw du sort workload cfg)
        λ r b. record {
          prometheus_scheduled =
              holds IsScheduled _ _ b.prometheus_built
                (resolve_prometheus-IsScheduled cfg.prometheus);
          exec_scheduled = holds IsScheduled _ _ b.exec_built (resolve_exec-IsScheduled cfg.exec);
        }

  always : (o : Option Bytes) → Succeeds (λ w. Unit) o
  always none = tt
  always (some w) = tt

  pub resolve_runtime_config-AreScheduled :
      (cfg : Option FileConfig) (flag : Bytes) (is_set : Bool) (host : Option Bytes)
      → Succeeds AreScheduled (resolve_runtime_config e urls lw du sort cfg flag is_set host)
  unfolding resolve_runtime_config
  resolve_runtime_config-AreScheduled cfg flag is_set host =
      Succeeds-bind (λ w. Unit) AreScheduled _ _ (always _)
        (λ w k. with_workload-AreScheduled cfg w)
