-- ===== src/Entry/Start/Intervals.antt =====
-- The collectors that run for a configuration that is resolved have positive intervals.
use prostometrics_agent.Agent.{Collector}
use prostometrics_agent.Agent.Startup.{
  Detection, answered, detect_panicked, Creation, built, nil_collector, new_panicked, try_probe,
  try_probes, startup, non_nil,
}
use prostometrics_agent.Base.{
  Bool, true, false, List, [], ◌∷◌, ◌++◌, Option, none, some, Bytes, map, inl, inr, arith, All,
  All-append, ◌===◌,
}
use prostometrics_agent.Base.Integers.{pos, ◌<ℤ◌}
use prostometrics_agent.Config.Generic.{Durations}
use prostometrics_agent.Config.Runtime.{FileConfig, RuntimeConfig, Listed, resolve_runtime_config}
use prostometrics_agent.Config.Succeeds.{Succeeds}
use prostometrics_agent.Docker.Round.{Settings, settings_of, new_cpu_collector}
use prostometrics_agent.Docker.{LabelMode}
use prostometrics_agent.Entry.{
  Probe, docker, pressure, kernel, systemd, mongo, postgres, mysql, redis, rabbitmq, nginx,
  access_log, prometheus, exec, all_probes, configured_probes, when, core_collectors,
}
use prostometrics_agent.Entry.Start.{
  create, as_probe, core_collector, running, docker_created, probe_id,
}
use prostometrics_agent.Base.Parts.{AreDifferent}
use prostometrics_agent.Entry.Joined.{nine_joined}
use prostometrics_agent.Entry.Start.Scheduled.{
  IsScheduled, AreScheduled, resolve_runtime_config-AreScheduled,
}
use prostometrics_agent.Entry.Start.Different.{ids, running-AreDifferent}
use prostometrics_agent.Labels.{Urls}
use prostometrics_agent.Nginx.Endpoint.{Endpoints}
use prostometrics_agent.Text.Case.{Lowering}
use prostometrics_agent.Text.Space.{trim_space}

abbrev pub IsTimed : Collector → Type 0
IsTimed c = pos 0 <ℤ c.every

abbrev BuildsTimed : Creation → Type 0
BuildsTimed (built c) = IsTimed c
BuildsTimed nil_collector = Unit
BuildsTimed new_panicked = Unit

-- The intervals that are taken from the configuration.
abbrev HasInterval : Probe → Type 0
HasInterval (prometheus ts every) = pos 0 <ℤ every
HasInterval (exec cs every) = pos 0 <ℤ every
HasInterval (mongo is) = Unit
HasInterval (postgres is) = Unit
HasInterval (mysql is) = Unit
HasInterval (redis is) = Unit
HasInterval (rabbitmq is) = Unit
HasInterval (nginx endpoint) = Unit
HasInterval (access_log path samples top site) = Unit
HasInterval docker = Unit
HasInterval pressure = Unit
HasInterval kernel = Unit
HasInterval systemd = Unit

docker_created-BuildsTimed :
    (o : Option Settings)
    → Succeeds (λ (s : Settings). pos 0 <ℤ s.every) o
    → BuildsTimed (docker_created o)
docker_created-BuildsTimed none h = tt
docker_created-BuildsTimed (some s) h = h

settings_of-every :
    (mode : Option LabelMode)
    → Succeeds
        (λ (s : Settings). pos 0 <ℤ s.every)
        (settings_of mode (pos 10_000_000_000) (pos 200) (pos 8) (pos 5_000_000_000))
settings_of-every none = tt
settings_of-every (some mode) = omega arith

create-BuildsTimed : (lw : Lowering) (p : Probe) → HasInterval p → BuildsTimed (create lw p)
unfolding create new_cpu_collector trim_space ◌===◌
create-BuildsTimed lw docker h = docker_created-BuildsTimed _ (settings_of-every _)
create-BuildsTimed lw pressure h = omega arith
create-BuildsTimed lw kernel h = omega arith
create-BuildsTimed lw systemd h = omega arith
create-BuildsTimed lw (mongo is) h = omega arith
create-BuildsTimed lw (postgres is) h = omega arith
create-BuildsTimed lw (mysql is) h = omega arith
create-BuildsTimed lw (redis is) h = omega arith
create-BuildsTimed lw (rabbitmq is) h = omega arith
create-BuildsTimed lw (nginx endpoint) h = omega arith
create-BuildsTimed lw (access_log path samples top site) h = omega arith
create-BuildsTimed lw (prometheus ts every) h = h
create-BuildsTimed lw (exec cs every) h = h

found-IsTimed :
    (id : Bytes) (d : Detection) (n : Creation) (more : List Collector)
    → BuildsTimed n
    → All IsTimed more
    → All IsTimed ((try_probe (record { id = id; detect = d; new = n })).1 ++ more)
unfolding try_probe
found-IsTimed id (detect_panicked v) n more h k = k
found-IsTimed id (answered false r) n more h k = k
found-IsTimed id (answered true r) (built c) more h k = (h, k)
found-IsTimed id (answered true r) nil_collector more h k = k
found-IsTimed id (answered true r) new_panicked more h k = k

try_probes-IsTimed :
    (lw : Lowering) (detection : Probe → Detection) (ps : List Probe)
    → All HasInterval ps
    → All IsTimed (try_probes (map (as_probe lw detection) ps)).1
unfolding try_probes
try_probes-IsTimed lw detection [] h = tt
try_probes-IsTimed lw detection (p ∷ ps) (h, hs) =
    found-IsTimed (probe_id p) (detection p) (create lw p) _ (create-BuildsTimed lw p h)
      (try_probes-IsTimed lw detection ps hs)

core-IsTimed : (lw : Lowering) → All IsTimed (non_nil (map (core_collector lw) core_collectors))
unfolding non_nil
core-IsTimed lw = (
  omega arith,
  (
    omega arith,
    (omega arith, (omega arith, (omega arith, (omega arith, (omega arith, (omega arith, tt)))))),
  ),
)

always-HasInterval : (b : Bool) (p : Probe) → HasInterval p → All HasInterval (when b p)
always-HasInterval true p h = (h, tt)
always-HasInterval false p h = tt

when-HasInterval :
    {T : Type 0} (l : Listed T) (p : Probe)
    → IsScheduled l
    → (pos 0 <ℤ l.every → HasInterval p)
    → All HasInterval (when l.enabled p)
when-HasInterval l p (inl disabled) k = rw disabled tt
when-HasInterval l p (inr h) k = always-HasInterval l.enabled p (k h)

configured_probes-HasInterval :
    (r : RuntimeConfig) → AreScheduled r → All HasInterval (configured_probes r)
unfolding configured_probes
configured_probes-HasInterval r s = nine_joined HasInterval _ _ _ _ _ _ _ _ _ (
  always-HasInterval r.mongo.enabled _ tt,
  always-HasInterval r.nginx.enabled _ tt,
  always-HasInterval r.nginx.access_log_enabled _ tt,
  always-HasInterval r.postgres.enabled _ tt,
  always-HasInterval r.mysql.enabled _ tt,
  always-HasInterval r.redis.enabled _ tt,
  always-HasInterval r.rabbitmq.enabled _ tt,
  when-HasInterval r.prometheus _ s.prometheus_scheduled (λ e. e),
  when-HasInterval r.exec _ s.exec_scheduled (λ e. e),
)

running-IsTimed :
    (lw : Lowering) (detection : Probe → Detection) (r : RuntimeConfig)
    → AreScheduled r
    → All IsTimed (running lw detection r)
unfolding running startup all_probes
running-IsTimed lw detection r h =
    All-append IsTimed (non_nil (map (core_collector lw) core_collectors)) _ (core-IsTimed lw) (
      try_probes-IsTimed lw detection (all_probes r)
        (tt, (tt, (tt, (tt, configured_probes-HasInterval r h)))))

abbrev pub RunsWell : Lowering → (Probe → Detection) → RuntimeConfig → Type 0
RunsWell lw detection r =
    AreDifferent (ids (running lw detection r)) × All IsTimed (running lw detection r)

module _ (e : Endpoints) (urls : Urls) (lw : Lowering) (du : Durations)
    (sort : List Bytes → List Bytes) where
  runs :
      (detection : Probe → Detection) (o : Option RuntimeConfig)
      → Succeeds AreScheduled o
      → Succeeds (RunsWell lw detection) o
  runs detection none h = tt
  runs detection (some r) h =
      (running-AreDifferent lw detection r, running-IsTimed lw detection r h)

  -- For a configuration that is resolved, with a file or without, and whatever the probes answer, no
  -- two collectors that run have the same name, so that the messages of one, which are limited by
  -- name, never hold back those of another; and each has a positive interval, so that its ticker
  -- takes the interval that was asked for.
  pub running_lem :
      (cfg : Option FileConfig) (flag : Bytes) (is_set : Bool) (host : Option Bytes)
      → (detection : Probe → Detection)
      → Succeeds
          (RunsWell lw detection)
          (resolve_runtime_config e urls lw du sort cfg flag is_set host)
  running_lem cfg flag is_set host detection =
      runs detection _ (resolve_runtime_config-AreScheduled e urls lw du sort cfg flag is_set host)
