-- ===== src/Config/Runtime/Sound.antt =====
-- What a resolved configuration is like.
use prostometrics_agent.Base.{true, false, [], Option, none, some, ◌≡◌, ◌⊎◌, ◌===◌, All}
use prostometrics_agent.Config.Generic.Commands.{IsRunnable}
use prostometrics_agent.Config.Generic.Distinct.{AreDistinct, Distinct}
use prostometrics_agent.Config.Instances.Complete.{IsComplete}
use prostometrics_agent.Config.Runtime.{ListConfig, FileConfig, NginxRuntime, RuntimeConfig}
use prostometrics_agent.Labels.{Urls}
use prostometrics_agent.Labels.Naming.{HasPlainHost, parsed_as}
use prostometrics_agent.Config.Instances.{Entry}
use prostometrics_agent.Labels.Naming as Naming
use prostometrics_agent.Nginx.Endpoint.{Endpoints, validate_endpoint}
use prostometrics_agent.Text.Space.{trim_space}
use prostometrics_agent.Config.Runtime.Listing.{IsListed}
use prostometrics_agent.Config.Succeeds.{Succeeds}

-- The access log is read of an integration that is on, from a path that is not empty.
abbrev pub FollowsLog : NginxRuntime → Type 0
FollowsLog n =
    (n.access_log_enabled ≡ false) ⊎ ((n.enabled ≡ true) × ((n.access_log_path === []) ≡ false))

-- An endpoint that was given has a scheme and a host; a blank one is looked for.
abbrev pub HasEndpoint : Endpoints → NginxRuntime → Type 0
HasEndpoint e n = ((trim_space n.endpoint === []) ≡ true) ⊎ (validate_endpoint e n.endpoint ≡ true)

abbrev IsReached : Endpoints → NginxRuntime → Type 0
IsReached e n = FollowsLog n × HasEndpoint e n

pub record IsSound (e : Endpoints) (r : RuntimeConfig) : Type 0 where
  pub workload_named : (r.workload === []) ≡ false
  pub mongo_listed : IsListed (All IsComplete) r.mongo
  pub nginx_follows : FollowsLog r.nginx
  pub nginx_reached : HasEndpoint e r.nginx
  pub postgres_listed : IsListed (All IsComplete) r.postgres
  pub mysql_listed : IsListed (All IsComplete) r.mysql
  pub redis_listed : IsListed (All IsComplete) r.redis
  pub rabbitmq_listed : IsListed (All IsComplete) r.rabbitmq
  pub prometheus_listed : IsListed (AreDistinct []) r.prometheus
  pub exec_listed : IsListed (All IsRunnable) r.exec

-- No instance of a list is named after a host and a port that stand in the query of its URL.
abbrev pub HavePlainHosts : Urls → ListConfig → Type 0
HavePlainHosts urls c =
    All (λ (e : Entry). HasPlainHost (parsed_as urls (trim_space (trim_space e.connection))))
      c.instances

-- So it is in the whole file.
abbrev pub AllPlainHosts : Urls → Option FileConfig → Type 0
AllPlainHosts urls none = Unit
AllPlainHosts urls (some cfg) =
    HavePlainHosts urls cfg.mongo
    × HavePlainHosts urls cfg.postgres
    × HavePlainHosts urls cfg.redis
    × HavePlainHosts urls cfg.rabbitmq
