-- ===== src/Config/Runtime/Filled.antt =====
-- An integration that is on is not empty.
use prostometrics_agent.Base.{Bool, List, [], Option, none, some, Bytes, inr, refl, length}
use prostometrics_agent.Config.Enabled.{integration_enabled, integration_enabled_lem}
use prostometrics_agent.Config.Generic.{Durations, resolve_targets, resolve_commands}
use prostometrics_agent.Config.Runtime.Built.{IsBuilt, with_file-IsBuilt, mysql_named, holds}
use prostometrics_agent.Config.Runtime.Listing.{
  IsListed, resolve_list-IsFilled, decided-IsListed, resolve_targets-Keeps, resolve_commands-Keeps,
}
use prostometrics_agent.Config.Runtime.{
  FileConfig, PrometheusConfig, ExecConfig, RuntimeConfig, Listed, resolve_prometheus, resolve_exec,
  with_workload, resolve_runtime_config,
}
use prostometrics_agent.Config.Succeeds.{Succeeds, Succeeds-bind, follows}
use prostometrics_agent.Labels.{Urls, instance_label_from_uri}
use prostometrics_agent.Nginx.Endpoint.{Endpoints}
use prostometrics_agent.Text.Case.{Lowering}

-- It is on and has something, or off and has nothing.
abbrev pub IsFilled : {T : Type 0} → Listed T → Type 0
IsFilled = IsListed (λ ts. Unit)

pub record AreFilled (r : RuntimeConfig) : Type 0 where
  pub mongo_filled : IsFilled r.mongo
  pub postgres_filled : IsFilled r.postgres
  pub mysql_filled : IsFilled r.mysql
  pub redis_filled : IsFilled r.redis
  pub rabbitmq_filled : IsFilled r.rabbitmq
  pub prometheus_filled : IsFilled r.prometheus
  pub exec_filled : IsFilled r.exec

always : {T : Type 0} (o : Option T) → Succeeds (λ t. Unit) o
always none = tt
always (some t) = tt

module _ (e : Endpoints) (urls : Urls) (lw : Lowering) (du : Durations)
    (sort : List Bytes → List Bytes) where
  resolve_prometheus-IsFilled :
      (c : PrometheusConfig) → Succeeds IsFilled (resolve_prometheus e urls lw du sort c)
  unfolding resolve_prometheus
  resolve_prometheus-IsFilled c =
      let derive = instance_label_from_uri urls in
      decided-IsListed (λ ts. Unit) (integration_enabled c.enabled (length c.targets)) _ c.targets
        (resolve_targets derive [] c.targets)
        (λ enabled. ((integration_enabled_lem c.enabled (length c.targets)).0 enabled).1)
        (resolve_targets-Keeps derive [] c.targets) (always _)

  resolve_exec-IsFilled : (c : ExecConfig) → Succeeds IsFilled (resolve_exec e urls lw du sort c)
  unfolding resolve_exec
  resolve_exec-IsFilled c =
      decided-IsListed (λ cs. Unit) (integration_enabled c.enabled (length c.commands)) _ c.commands
        (resolve_commands lw du sort c.commands)
        (λ enabled. ((integration_enabled_lem c.enabled (length c.commands)).0 enabled).1)
        (resolve_commands-Keeps lw du sort c.commands) (always _)

  built-AreFilled :
      (workload : Bytes) (cfg : FileConfig) (r : RuntimeConfig)
      → IsBuilt e urls lw du sort workload cfg r
      → AreFilled r
  built-AreFilled workload cfg r b =
      let named = instance_label_from_uri urls in
      record {
        mongo_filled = holds IsFilled _ _ b.mongo_built (resolve_list-IsFilled named cfg.mongo);
        postgres_filled =
            holds IsFilled _ _ b.postgres_built (resolve_list-IsFilled named cfg.postgres);
        mysql_filled =
            holds IsFilled _ _ b.mysql_built (resolve_list-IsFilled mysql_named cfg.mysql);
        redis_filled = holds IsFilled _ _ b.redis_built (resolve_list-IsFilled named cfg.redis);
        rabbitmq_filled =
            holds IsFilled _ _ b.rabbitmq_built (resolve_list-IsFilled named cfg.rabbitmq);
        prometheus_filled =
            holds IsFilled _ _ b.prometheus_built (resolve_prometheus-IsFilled cfg.prometheus);
        exec_filled = holds IsFilled _ _ b.exec_built (resolve_exec-IsFilled cfg.exec);
      }

  with_workload-AreFilled :
      (cfg : Option FileConfig) (workload : Bytes)
      → Succeeds AreFilled (with_workload e urls lw du sort cfg workload)
  with_workload-AreFilled none workload = record {
    mongo_filled = inr (refl, refl);
    postgres_filled = inr (refl, refl);
    mysql_filled = inr (refl, refl);
    redis_filled = inr (refl, refl);
    rabbitmq_filled = inr (refl, refl);
    prometheus_filled = inr (refl, refl);
    exec_filled = inr (refl, refl);
  }
  with_workload-AreFilled (some cfg) workload =
      follows (IsBuilt e urls lw du sort workload cfg) AreFilled _
        (with_file-IsBuilt e urls lw du sort workload cfg) (built-AreFilled workload cfg)

  pub resolve_runtime_config-AreFilled :
      (cfg : Option FileConfig) (flag : Bytes) (is_set : Bool) (host : Option Bytes)
      → Succeeds AreFilled (resolve_runtime_config e urls lw du sort cfg flag is_set host)
  unfolding resolve_runtime_config
  resolve_runtime_config-AreFilled cfg flag is_set host =
      Succeeds-bind (λ w. Unit) AreFilled _ _ (always _) (λ w k. with_workload-AreFilled cfg w)
