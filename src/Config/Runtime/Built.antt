-- ===== src/Config/Runtime/Built.antt =====
-- What the parts of a resolved configuration come of.
use prostometrics_agent.Base.{List, Option, none, some, ◌>>=◌, Bytes, ◌≡◌, refl, subst}
use prostometrics_agent.Config.Generic.{Durations}
use prostometrics_agent.Config.Instances.{mysql_label_from_dsn}
use prostometrics_agent.Config.Runtime.{
  FileConfig, RuntimeConfig, resolve_nginx, resolve_list, resolve_prometheus, resolve_exec,
  with_file,
}
use prostometrics_agent.Config.Succeeds.{Succeeds}
use prostometrics_agent.Labels.{Urls, instance_label_from_uri}
use prostometrics_agent.Nginx.Endpoint.{Endpoints}
use prostometrics_agent.Text.Case.{Lowering}

step :
    {T U : Type 0} (Q : U → Type 0) (o : Option T) (f : T → Option U)
    → ((a : T) → o ≡ some a → Succeeds Q (f a))
    → Succeeds Q (o >>= f)
step Q none f k = tt
step Q (some a) f k = k a refl

pub holds : {T : Type 0} (P : T → Type 0) (o : Option T) (a : T) → o ≡ some a → Succeeds P o → P a
holds P o a e h = subst (Succeeds P) e h

abbrev pub mysql_named : Bytes → Option Bytes
mysql_named dsn = some (mysql_label_from_dsn dsn)

module _ (e : Endpoints) (urls : Urls) (lw : Lowering) (du : Durations)
    (sort : List Bytes → List Bytes) where
  pub record IsBuilt (workload : Bytes) (cfg : FileConfig) (r : RuntimeConfig) : Type 0 where
    pub workload_built : r.workload ≡ workload
    pub nginx_built : resolve_nginx e cfg.nginx ≡ some r.nginx
    pub mongo_built : resolve_list (instance_label_from_uri urls) cfg.mongo ≡ some r.mongo
    pub postgres_built : resolve_list (instance_label_from_uri urls) cfg.postgres ≡ some r.postgres
    pub redis_built : resolve_list (instance_label_from_uri urls) cfg.redis ≡ some r.redis
    pub rabbitmq_built : resolve_list (instance_label_from_uri urls) cfg.rabbitmq ≡ some r.rabbitmq
    pub mysql_built : resolve_list mysql_named cfg.mysql ≡ some r.mysql
    pub prometheus_built : resolve_prometheus e urls lw du sort cfg.prometheus ≡ some r.prometheus
    pub exec_built : resolve_exec e urls lw du sort cfg.exec ≡ some r.exec

  pub with_file-IsBuilt :
      (workload : Bytes) (cfg : FileConfig)
      → Succeeds (IsBuilt workload cfg) (with_file e urls lw du sort workload cfg)
  with_file-IsBuilt workload cfg =
      let named = instance_label_from_uri urls in
      let Q = IsBuilt workload cfg in
      step Q (resolve_nginx e cfg.nginx) _ λ n hn. step Q (resolve_list named cfg.mongo) _ λ m hm.
        step Q (resolve_list named cfg.postgres) _ λ p hp.
          step Q (resolve_list named cfg.redis) _ λ r hr.
            step Q (resolve_list named cfg.rabbitmq) _ λ q hq.
              step Q (resolve_list mysql_named cfg.mysql) _ λ y hy.
                step Q (resolve_prometheus e urls lw du sort cfg.prometheus) _ λ t ht.
                  step Q (resolve_exec e urls lw du sort cfg.exec) _ λ x hx. record {
                    workload_built = refl;
                    nginx_built = hn;
                    mongo_built = hm;
                    postgres_built = hp;
                    redis_built = hr;
                    rabbitmq_built = hq;
                    mysql_built = hy;
                    prometheus_built = ht;
                    exec_built = hx;
                  }
