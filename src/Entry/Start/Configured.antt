-- ===== src/Entry/Start/Configured.antt =====
-- What is configured runs.
use prostometrics_agent.Agent.{Collector}
use prostometrics_agent.Agent.Startup.{
  Detection, answered, Creation, built, nil_collector, new_panicked, Any, Offers, startup_lem,
}
use prostometrics_agent.Base.{
  Bool, true, false, List, [], ◌∷◌, Option, none, some, Bytes, map, ◌≡◌, refl, ap, inl, inr, All,
}
use prostometrics_agent.Config.Generic.{Durations}
use prostometrics_agent.Config.Runtime.Filled.{AreFilled, resolve_runtime_config-AreFilled}
use prostometrics_agent.Config.Runtime.{FileConfig, RuntimeConfig, resolve_runtime_config}
use prostometrics_agent.Config.Succeeds.{Succeeds}
use prostometrics_agent.Entry.Detect.{Host, detect}
use prostometrics_agent.Entry.Joined.{nine_parts}
use prostometrics_agent.Entry.Probes.{IsDetected, configured_probes-IsDetected}
use prostometrics_agent.Entry.Start.{create, as_probe, core_collector, running}
use prostometrics_agent.Entry.{
  Probe, docker, pressure, kernel, systemd, mongo, postgres, mysql, redis, rabbitmq, nginx,
  access_log, prometheus, exec, all_probes, configured_probes, core_collectors, when,
}
use prostometrics_agent.Floats.{Floats}
use prostometrics_agent.Labels.{Urls}
use prostometrics_agent.Nginx.Endpoint.{Endpoints}
use prostometrics_agent.Text.Case.{Lowering}

abbrev Has : List Collector → Creation → Type 0
Has cs (built c) = Any (λ d. d ≡ c) cs
Has cs nil_collector = ⊥
Has cs new_panicked = ⊥

when-lem : (P : Probe → Type 0) (b : Bool) (p : Probe) → All P (when b p) → b ≡ true → P p
when-lem P true p h e = h.0
when-lem P false p h e = absurd (cc)

module _ (fl : Floats) (lw : Lowering) (h : Host) (reason : Probe → Bytes) where
  -- What `Detect` of a probe answers, with a text.
  abbrev pub answer : Probe → Detection
  answer p = answered (detect fl lw h p) (reason p)

  -- The collector of a probe that holds a list is among those.
  abbrev pub IsStarted : List Collector → Probe → Type 0
  IsStarted cs (mongo is) = Has cs (create lw (mongo is))
  IsStarted cs (postgres is) = Has cs (create lw (postgres is))
  IsStarted cs (mysql is) = Has cs (create lw (mysql is))
  IsStarted cs (redis is) = Has cs (create lw (redis is))
  IsStarted cs (rabbitmq is) = Has cs (create lw (rabbitmq is))
  IsStarted cs (prometheus ts every) = Has cs (create lw (prometheus ts every))
  IsStarted cs (exec es every) = Has cs (create lw (exec es every))
  IsStarted cs (nginx endpoint) = Unit
  IsStarted cs (access_log path samples top site) = Unit
  IsStarted cs docker = Unit
  IsStarted cs pressure = Unit
  IsStarted cs kernel = Unit
  IsStarted cs systemd = Unit

  probe-IsStarted :
      (cs : List Collector) (p : Probe)
      → IsDetected p
      → ((c : Collector) → Offers c (as_probe lw answer p) → Any (λ d. d ≡ c) cs)
      → IsStarted cs p
  unfolding detect create
  probe-IsStarted cs (mongo is) e k = k _ ((_, ap (λ b. answered b (reason (mongo is))) e), refl)
  probe-IsStarted cs (postgres is) e k =
      k _ ((_, ap (λ b. answered b (reason (postgres is))) e), refl)
  probe-IsStarted cs (mysql is) e k = k _ ((_, ap (λ b. answered b (reason (mysql is))) e), refl)
  probe-IsStarted cs (redis is) e k = k _ ((_, ap (λ b. answered b (reason (redis is))) e), refl)
  probe-IsStarted cs (rabbitmq is) e k =
      k _ ((_, ap (λ b. answered b (reason (rabbitmq is))) e), refl)
  probe-IsStarted cs (prometheus ts every) e k =
      k _ ((_, ap (λ b. answered b (reason (prometheus ts every))) e), refl)
  probe-IsStarted cs (exec es every) e k =
      k _ ((_, ap (λ b. answered b (reason (exec es every))) e), refl)
  probe-IsStarted cs (nginx endpoint) e k = tt
  probe-IsStarted cs (access_log path samples top site) e k = tt
  probe-IsStarted cs docker e k = tt
  probe-IsStarted cs pressure e k = tt
  probe-IsStarted cs kernel e k = tt
  probe-IsStarted cs systemd e k = tt

  probes-AreStarted :
      (cs : List Collector) (ps : List Probe)
      → All IsDetected ps
      → ((c : Collector) → Any (Offers c) (map (as_probe lw answer) ps) → Any (λ d. d ≡ c) cs)
      → All (IsStarted cs) ps
  probes-AreStarted cs [] e k = tt
  probes-AreStarted cs (p ∷ ps) (e, es) k =
      (probe-IsStarted cs p e (λ c o. k c (inl o)), probes-AreStarted cs ps es (λ c o. k c (inr o)))

  configured-AreStarted :
      (r : RuntimeConfig)
      → All IsDetected (configured_probes r)
      → All (IsStarted (running lw answer r)) (configured_probes r)
  unfolding running all_probes
  configured-AreStarted r e = probes-AreStarted (running lw answer r) (configured_probes r) e λ c o.
      (startup_lem c (map (core_collector lw) core_collectors)
          (map (as_probe lw answer) (all_probes r))).1
        (inr (inr (inr (inr (inr o)))))

  -- Each integration that is enabled and configured as a list has its collector among those.
  pub record AllRun (r : RuntimeConfig) (cs : List Collector) : Type 0 where
    pub mongo_runs : r.mongo.enabled ≡ true → IsStarted cs (mongo r.mongo.items)
    pub postgres_runs : r.postgres.enabled ≡ true → IsStarted cs (postgres r.postgres.items)
    pub mysql_runs : r.mysql.enabled ≡ true → IsStarted cs (mysql r.mysql.items)
    pub redis_runs : r.redis.enabled ≡ true → IsStarted cs (redis r.redis.items)
    pub rabbitmq_runs : r.rabbitmq.enabled ≡ true → IsStarted cs (rabbitmq r.rabbitmq.items)
    pub prometheus_runs :
        r.prometheus.enabled ≡ true
        → IsStarted cs (prometheus r.prometheus.items r.prometheus.every)
    pub exec_runs : r.exec.enabled ≡ true → IsStarted cs (exec r.exec.items r.exec.every)

  configured-AllRun :
      (r : RuntimeConfig) (cs : List Collector)
      → All (IsStarted cs) (configured_probes r)
      → AllRun r cs
  unfolding configured_probes
  configured-AllRun r cs all =
      let (m, n, l, p, y, d, q, t, x) = nine_parts (IsStarted cs) _ _ _ _ _ _ _ _ _ all in
      record {
        mongo_runs = when-lem (IsStarted cs) r.mongo.enabled _ m;
        postgres_runs = when-lem (IsStarted cs) r.postgres.enabled _ p;
        mysql_runs = when-lem (IsStarted cs) r.mysql.enabled _ y;
        redis_runs = when-lem (IsStarted cs) r.redis.enabled _ d;
        rabbitmq_runs = when-lem (IsStarted cs) r.rabbitmq.enabled _ q;
        prometheus_runs = when-lem (IsStarted cs) r.prometheus.enabled _ t;
        exec_runs = when-lem (IsStarted cs) r.exec.enabled _ x;
      }

  started :
      (o : Option RuntimeConfig)
      → Succeeds AreFilled o
      → Succeeds (λ r. AllRun r (running lw answer r)) o
  started none s = tt
  started (some r) s =
      configured-AllRun r (running lw answer r)
        (configured-AreStarted r (configured_probes-IsDetected r s))

  -- For a configuration that is resolved, with a file or without, each integration that is enabled
  -- and configured as a list runs, on every machine and whatever the other probes answer: the probe
  -- that `main` hands to the runner is detected, and the collector that it builds is among those that
  -- are started.
  pub running-configured_probes :
      (e : Endpoints) (urls : Urls) (du : Durations) (sort : List Bytes → List Bytes)
      (cfg : Option FileConfig) (flag : Bytes) (is_set : Bool) (host : Option Bytes)
      → Succeeds
          (λ r. AllRun r (running lw answer r))
          (resolve_runtime_config e urls lw du sort cfg flag is_set host)
  running-configured_probes e urls du sort cfg flag is_set host =
      started _ (resolve_runtime_config-AreFilled e urls lw du sort cfg flag is_set host)
