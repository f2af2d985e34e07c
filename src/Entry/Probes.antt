-- ===== src/Entry/Probes.antt =====
-- The probes of a resolved configuration.
use prostometrics_agent.Base.{
  ◌<◌, Bool, true, false, List, [], ◌∷◌, ◌≡◌, inl, inr, refl, arith, All, length,
}
use prostometrics_agent.Config.Runtime.{RuntimeConfig, Listed}
use prostometrics_agent.Config.Runtime.Filled.{IsFilled, AreFilled}
use prostometrics_agent.Entry.Joined.{nine_joined}
use prostometrics_agent.Entry.{
  Probe, docker, pressure, kernel, systemd, mongo, postgres, mysql, redis, rabbitmq, nginx,
  access_log, prometheus, exec, when, configured_probes, detect_listed,
}

-- A probe that holds a list is detected.
abbrev pub IsDetected : Probe → Type 0
IsDetected (mongo is) = detect_listed is ≡ true
IsDetected (postgres is) = detect_listed is ≡ true
IsDetected (mysql is) = detect_listed is ≡ true
IsDetected (redis is) = detect_listed is ≡ true
IsDetected (rabbitmq is) = detect_listed is ≡ true
IsDetected (prometheus ts every) = detect_listed ts ≡ true
IsDetected (exec cs every) = detect_listed cs ≡ true
IsDetected (nginx endpoint) = Unit
IsDetected (access_log path samples top site) = Unit
IsDetected docker = Unit
IsDetected pressure = Unit
IsDetected kernel = Unit
IsDetected systemd = Unit

detect_listed-lt : {T : Type 0} (ts : List T) → 0 < length ts → detect_listed ts ≡ true
detect_listed-lt [] h = absurd (omega arith)
detect_listed-lt (t ∷ ts) h = refl

when-IsDetected :
    {T : Type 0} (l : Listed T) (p : Probe)
    → IsFilled l
    → (detect_listed l.items ≡ true → IsDetected p)
    → All IsDetected (when l.enabled p)
when-IsDetected l p (inl (e, n, h)) k = rw e (k (detect_listed-lt l.items n), tt)
when-IsDetected l p (inr (e, n)) k = rw e tt

always-IsDetected : (b : Bool) (p : Probe) → IsDetected p → All IsDetected (when b p)
always-IsDetected true p h = (h, tt)
always-IsDetected false p h = tt

pub configured_probes-IsDetected :
    (r : RuntimeConfig) → AreFilled r → All IsDetected (configured_probes r)
unfolding configured_probes
configured_probes-IsDetected r s = nine_joined IsDetected _ _ _ _ _ _ _ _ _ (
  when-IsDetected r.mongo _ s.mongo_filled (λ h. h),
  always-IsDetected r.nginx.enabled _ tt,
  always-IsDetected r.nginx.access_log_enabled _ tt,
  when-IsDetected r.postgres _ s.postgres_filled (λ h. h),
  when-IsDetected r.mysql _ s.mysql_filled (λ h. h),
  when-IsDetected r.redis _ s.redis_filled (λ h. h),
  when-IsDetected r.rabbitmq _ s.rabbitmq_filled (λ h. h),
  when-IsDetected r.prometheus _ s.prometheus_filled (λ h. h),
  when-IsDetected r.exec _ s.exec_filled (λ h. h),
)
