-- ===== src/Entry/Start/Different.antt =====
-- The collectors that run have names of their own.
use prostometrics_agent.Agent.{Collector}
use prostometrics_agent.Agent.Startup.{
  Detection, answered, detect_panicked, Creation, built, nil_collector, new_panicked, try_probe,
  try_probes, startup, non_nil,
}
use prostometrics_agent.Base.{
  Bool, true, false, List, [], ◌∷◌, ◌++◌, Option, none, some, Bytes, codes, elem_bytes, ◌===◌, map,
  map-append, ◌≡◌, refl, sym, subst, inl, inr,
}
use prostometrics_agent.Base.Parts.{IsPart, IsPart-append, IsPart-AreDifferent, AreDifferent}
use prostometrics_agent.Config.Runtime.{RuntimeConfig}
use prostometrics_agent.Docker.Round.{Settings}
use prostometrics_agent.Entry.{
  Probe, docker, pressure, kernel, systemd, mongo, postgres, mysql, redis, rabbitmq, nginx,
  access_log, prometheus, exec, all_probes, configured_probes, integration_probes, when,
  core_collectors,
}
use prostometrics_agent.Entry.Start.{
  create, as_probe, core_collector, running, docker_created, probe_id,
}
use prostometrics_agent.Text.Case.{Lowering}

abbrev pub ids : List Collector → List Bytes
ids cs = map (λ (c : Collector). c.id) cs

-- The name of the collector that a probe builds.
abbrev built_id : Probe → Bytes
built_id docker = codes "docker.cpu"
built_id pressure = codes "core.pressure"
built_id kernel = codes "core.kernel"
built_id systemd = codes "systemd"
built_id (mongo is) = codes "mongo"
built_id (postgres is) = codes "postgres"
built_id (mysql is) = codes "mysql"
built_id (redis is) = codes "redis"
built_id (rabbitmq is) = codes "rabbitmq"
built_id (nginx endpoint) = codes "nginx"
built_id (access_log path samples top site) = codes "nginx.accesslog"
built_id (prometheus ts every) = codes "prometheus"
built_id (exec cs every) = codes "exec"

abbrev HasId : Bytes → Creation → Type 0
HasId id (built c) = c.id ≡ id
HasId id nil_collector = Unit
HasId id new_panicked = Unit

docker_created-HasId : (o : Option Settings) → HasId (codes "docker.cpu") (docker_created o)
docker_created-HasId none = tt
docker_created-HasId (some s) = refl

create-HasId : (lw : Lowering) (p : Probe) → HasId (built_id p) (create lw p)
unfolding create
create-HasId lw docker = docker_created-HasId _
create-HasId lw pressure = refl
create-HasId lw kernel = refl
create-HasId lw systemd = refl
create-HasId lw (mongo is) = refl
create-HasId lw (postgres is) = refl
create-HasId lw (mysql is) = refl
create-HasId lw (redis is) = refl
create-HasId lw (rabbitmq is) = refl
create-HasId lw (nginx endpoint) = refl
create-HasId lw (access_log path samples top site) = refl
create-HasId lw (prometheus ts every) = refl
create-HasId lw (exec cs every) = refl

left_out : (x : Bytes) (xs us : List Bytes) → IsPart xs us → IsPart xs (x ∷ us)
left_out x [] us h = tt
left_out x (y ∷ ys) us h = inr h

found-IsPart :
    (id : Bytes) (d : Detection) (n : Creation) (more : List Collector) (x : Bytes)
    (us : List Bytes)
    → HasId x n
    → IsPart (ids more) us
    → IsPart (ids ((try_probe (record { id = id; detect = d; new = n })).1 ++ more)) (x ∷ us)
unfolding try_probe
found-IsPart id (detect_panicked v) n more x us h k = left_out x (ids more) us k
found-IsPart id (answered false r) n more x us h k = left_out x (ids more) us k
found-IsPart id (answered true r) (built c) more x us h k = inl (h, k)
found-IsPart id (answered true r) nil_collector more x us h k = left_out x (ids more) us k
found-IsPart id (answered true r) new_panicked more x us h k = left_out x (ids more) us k

module _ (lw : Lowering) (detection : Probe → Detection) where
  try_probes-IsPart :
      (ps : List Probe) (us : List Bytes)
      → IsPart (map built_id ps) us
      → IsPart (ids (try_probes (map (as_probe lw detection) ps)).1) us
  unfolding try_probes
  try_probes-IsPart [] us h = tt
  try_probes-IsPart (p ∷ ps) [] h = absurd h
  try_probes-IsPart (p ∷ ps) (u ∷ us) (inl (e, h)) =
      found-IsPart (probe_id p) (detection p) (create lw p) _ u us (rw (sym e) (create-HasId lw p))
        (try_probes-IsPart ps us h)
  try_probes-IsPart (p ∷ ps) (u ∷ us) (inr h) = left_out u _ us (try_probes-IsPart (p ∷ ps) us h)

abbrev IsPlaced : List Probe → List Bytes → Type 0
IsPlaced ps us = IsPart (map built_id ps) us

append-IsPlaced :
    (ps qs : List Probe) (us vs : List Bytes)
    → IsPlaced ps us
    → IsPlaced qs vs
    → IsPlaced (ps ++ qs) (us ++ vs)
append-IsPlaced ps qs us vs h k =
    rw (map-append built_id ps qs) (IsPart-append (map built_id ps) (map built_id qs) us vs h k)

when-IsPlaced : (b : Bool) (p : Probe) → IsPlaced (when b p) (built_id p ∷ [])
when-IsPlaced true p = inl (refl, tt)
when-IsPlaced false p = tt

abbrev configured_ids : List Bytes
configured_ids =
    codes "mongo"
    ∷ codes "nginx"
    ∷ codes "nginx.accesslog"
    ∷ codes "postgres"
    ∷ codes "mysql"
    ∷ codes "redis"
    ∷ codes "rabbitmq"
    ∷ codes "prometheus"
    ∷ codes "exec"
    ∷ []

configured_probes-IsPlaced : (r : RuntimeConfig) → IsPlaced (configured_probes r) configured_ids
unfolding configured_probes
configured_probes-IsPlaced r =
    append-IsPlaced _ _ (_ ∷ _ ∷ _ ∷ _ ∷ _ ∷ _ ∷ _ ∷ _ ∷ []) (_ ∷ [])
      (append-IsPlaced _ _ (_ ∷ _ ∷ _ ∷ _ ∷ _ ∷ _ ∷ _ ∷ []) (_ ∷ [])
        (append-IsPlaced _ _ (_ ∷ _ ∷ _ ∷ _ ∷ _ ∷ _ ∷ []) (_ ∷ [])
          (append-IsPlaced _ _ (_ ∷ _ ∷ _ ∷ _ ∷ _ ∷ []) (_ ∷ [])
            (append-IsPlaced _ _ (_ ∷ _ ∷ _ ∷ _ ∷ []) (_ ∷ [])
              (append-IsPlaced _ _ (_ ∷ _ ∷ _ ∷ []) (_ ∷ [])
                (append-IsPlaced _ _ (_ ∷ _ ∷ []) (_ ∷ [])
                  (append-IsPlaced _ _ (_ ∷ []) (_ ∷ [])
                    (when-IsPlaced r.mongo.enabled (mongo r.mongo.items))
                    (when-IsPlaced r.nginx.enabled _))
                  (when-IsPlaced r.nginx.access_log_enabled _))
                (when-IsPlaced r.postgres.enabled _))
              (when-IsPlaced r.mysql.enabled _))
            (when-IsPlaced r.redis.enabled _))
          (when-IsPlaced r.rabbitmq.enabled _))
        (when-IsPlaced r.prometheus.enabled _))
      (when-IsPlaced r.exec.enabled _)

abbrev core_ids : List Bytes
core_ids =
    codes "core.mem"
    ∷ codes "core.net"
    ∷ codes "core.diskio"
    ∷ codes "core.cpu_usage"
    ∷ codes "core.loadavg"
    ∷ codes "core.heartbeat"
    ∷ codes "core.uptime"
    ∷ codes "core.fs"
    ∷ []

abbrev integration_ids : List Bytes
integration_ids =
    codes "docker.cpu" ∷ codes "core.pressure" ∷ codes "core.kernel" ∷ codes "systemd" ∷ []

abbrev all_ids : List Bytes
all_ids = core_ids ++ (integration_ids ++ configured_ids)

all_ids-AreDifferent : AreDifferent all_ids
unfolding elem_bytes ◌===◌
all_ids-AreDifferent = (
  refl,
  (
    refl,
    (
      refl,
      (
        refl,
        (
          refl,
          (
            refl,
            (
              refl,
              (
                refl,
                (
                  refl,
                  (
                    refl,
                    (
                      refl,
                      (
                        refl,
                        (refl, (refl, (refl, (refl, (refl, (refl, (refl, (refl, (refl, tt))))))))),
                      ),
                    ),
                  ),
                ),
              ),
            ),
          ),
        ),
      ),
    ),
  ),
)

IsPart-refl : (xs : List Bytes) → IsPart xs xs
IsPart-refl [] = tt
IsPart-refl (x ∷ xs) = inl (refl, IsPart-refl xs)

core-IsPart :
    (lw : Lowering) → IsPart (ids (non_nil (map (core_collector lw) core_collectors))) core_ids
unfolding non_nil
core-IsPart lw = IsPart-refl core_ids

-- Whatever the probes answer, no two collectors that run for a configuration have the same name, so
-- that the messages of one, which are limited by name, never hold back those of another.
pub running-AreDifferent :
    (lw : Lowering) (detection : Probe → Detection) (r : RuntimeConfig)
    → AreDifferent (ids (running lw detection r))
unfolding running startup all_probes
running-AreDifferent lw detection r =
    let core = non_nil (map (core_collector lw) core_collectors) in
    let found = (try_probes (map (as_probe lw detection) (all_probes r))).1 in
    let placed : IsPlaced (all_probes r) (integration_ids ++ configured_ids) =
      append-IsPlaced integration_probes (configured_probes r) integration_ids configured_ids
        (IsPart-refl integration_ids) (configured_probes-IsPlaced r) in
    let parts : IsPart (ids core ++ ids found) all_ids =
      IsPart-append (ids core) (ids found) core_ids (integration_ids ++ configured_ids)
        (core-IsPart lw) (try_probes-IsPart lw detection (all_probes r) _ placed) in
    subst AreDifferent (sym (map-append (λ (c : Collector). c.id) core found))
      (IsPart-AreDifferent (ids core ++ ids found) all_ids parts all_ids-AreDifferent)
