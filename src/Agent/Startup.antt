-- ===== src/Agent/Startup.antt =====
-- internal/agent/runner.go: `Run` up to the start of the collectors, `detectOnce` and
-- `newFromProbe`. What a probe or a collector answers, or that it panics, is data here.
use prostometrics_agent.Agent.{Collector}
use prostometrics_agent.Base.{
  Bool, true, false, List, [], ◌∷◌, ◌++◌, ◌≡◌, ◌↔◌, ◌⊎◌, inl, inr, refl, ap, Option, none, some,
  if◌then◌else◌, Bytes, codes,
}

pub data Detection : Type 0 where
  answered : Bool → Bytes → Detection
  detect_panicked : Bytes → Detection

pub data Creation : Type 0 where
  built : Collector → Creation
  nil_collector : Creation
  new_panicked : Creation

pub record Probe : Type 0 where
  pub id : Bytes
  pub detect : Detection
  pub new : Creation

pub data Log : Type 0 where
  probe_detected : Bytes → Bytes → Log
  probe_not_detected : Bytes → Bytes → Log
  init_failed : Bytes → Log

unfoldable pub detect_once : Detection → Bool × Bytes
detect_once (answered ok reason) = (ok, reason)
detect_once (detect_panicked v) = (false, codes "probe panicked: " ++ v)

unfoldable pub new_from_probe : Creation → Option Collector
new_from_probe (built c) = some c
new_from_probe nil_collector = none
new_from_probe new_panicked = none

abbrev pub log_probe : Bytes → Bool → Bytes → Log
log_probe id true reason = probe_detected id reason
log_probe id false reason = probe_not_detected id reason

abbrev pub enable : Bytes → Bytes → Option Collector → List Log × List Collector
enable id reason none = (log_probe id true reason ∷ init_failed id ∷ [], [])
enable id reason (some c) = (log_probe id true reason ∷ [], c ∷ [])

-- One round of the loop over the probes.
unfoldable pub try_probe : Probe → List Log × List Collector
unfolding detect_once new_from_probe
try_probe p =
    let (ok, reason) = detect_once p.detect in
    if ok then enable p.id reason (new_from_probe p.new) else (log_probe p.id false reason ∷ [], [])

-- `none` is a nil interface value.
unfoldable pub try_probes : List (Option Probe) → List Log × List Collector
unfolding try_probe
try_probes [] = ([], [])
try_probes (none ∷ ps) = try_probes ps
try_probes (some p ∷ ps) =
    let (logs, found) = try_probe p in
    let (more_logs, more) = try_probes ps in (logs ++ more_logs, found ++ more)

unfoldable pub non_nil {ℓ} : {A : Type ℓ} → List (Option A) → List A
non_nil [] = []
non_nil (none ∷ cs) = non_nil cs
non_nil (some c ∷ cs) = c ∷ non_nil cs

-- The collectors that `Run` starts.
unfoldable pub startup : List (Option Collector) → List (Option Probe) → List Collector
unfolding non_nil try_probes
startup core probes = non_nil core ++ (try_probes probes).1

-- Some element passes.
abbrev pub Any {ℓ} : {A : Type ℓ} → (A → Type 0) → List A → Type 0
Any P [] = ⊥
Any P (x ∷ xs) = P x ⊎ Any P xs

-- A probe offers a collector if it was detected, with no panic, and built it, with no panic.
abbrev pub Offers : Collector → Option Probe → Type 0
Offers c none = ⊥
Offers c (some p) = ((reason : Bytes) × (p.detect ≡ answered true reason)) × (p.new ≡ built c)

Any-append :
    (c : Collector) (xs ys : List Collector)
    → Any (λ d. d ≡ c) (xs ++ ys) ↔ (Any (λ d. d ≡ c) xs ⊎ Any (λ d. d ≡ c) ys)
Any-append c [] ys = (inr, elim [ inl h ↦ absurd h | inr h ↦ h ])
Any-append c (x ∷ xs) ys =
    let ih = Any-append c xs ys in
    (
      elim [ inl h ↦ inl (inl h) | inr h ↦ elim (ih.0 h) [ inl k ↦ inl (inr k) | inr k ↦ inr k ] ],
      elim [
        | inl h ↦ elim h [ inl k ↦ inl k | inr k ↦ inr (ih.1 (inl k)) ]
        | inr h ↦ inr (ih.1 (inr h))
      ],
    )

try_probe-Offers :
    (c : Collector) (id : Bytes) (d : Detection) (n : Creation)
    → let p : Probe = record { id = id; detect = d; new = n } in
      Any (λ e. e ≡ c) (try_probe p).1 ↔ Offers c (some p)
unfolding try_probe
try_probe-Offers c id (detect_panicked v) n = ((λ h. absurd h), (λ h. cc (h.0.1)))
try_probe-Offers c id (answered false r) n = ((λ h. absurd h), (λ h. cc (h.0.1)))
try_probe-Offers c id (answered true r) (built d) =
    (elim [ inl e ↦ ((r, refl), ap built e) | inr e ↦ absurd e ], (λ h. inl (cc (h.1))))
try_probe-Offers c id (answered true r) nil_collector = ((λ h. absurd h), (λ h. cc (h.1)))
try_probe-Offers c id (answered true r) new_panicked = ((λ h. absurd h), (λ h. cc (h.1)))

core_lem :
    (c : Collector) (core : List (Option Collector))
    → Any (λ d. d ≡ c) (non_nil core) ↔ Any (λ o. o ≡ some c) core
unfolding non_nil
core_lem c [] = ((λ h. h), (λ h. h))
core_lem c (none ∷ core) =
    let ih = core_lem c core in ((λ h. inr (ih.0 h)), elim [ inl h ↦ absurd (cc) | inr h ↦ ih.1 h ])
core_lem c (some d ∷ core) =
    let ih = core_lem c core in
    (
      elim [ inl h ↦ inl (ap some h) | inr h ↦ inr (ih.0 h) ],
      elim [ inl h ↦ inl (cc) | inr h ↦ inr (ih.1 h) ],
    )

try_probes-Offers :
    (c : Collector) (probes : List (Option Probe))
    → Any (λ d. d ≡ c) (try_probes probes).1 ↔ Any (Offers c) probes
unfolding try_probes
try_probes-Offers c [] = ((λ h. h), (λ h. h))
try_probes-Offers c (none ∷ ps) =
    let ih = try_probes-Offers c ps in
    ((λ h. inr (ih.0 h)), elim [ inl h ↦ absurd h | inr h ↦ ih.1 h ])
try_probes-Offers c (some p ∷ ps) =
    let ih = try_probes-Offers c ps in
    let here = try_probe-Offers c p.id p.detect p.new in
    let both = Any-append c (try_probe p).1 (try_probes ps).1 in
    (
      (λ h. elim (both.0 h) [ inl k ↦ inl (here.0 k) | inr k ↦ inr (ih.0 k) ]),
      elim [ inl k ↦ both.1 (inl (here.1 k)) | inr k ↦ both.1 (inr (ih.1 k)) ],
    )

-- A collector runs exactly when it is one of the core collectors or when a probe was detected and
-- built it; a nil, an undetected or a panicking probe neither adds one nor hides another.
pub startup_lem :
    (c : Collector) (core : List (Option Collector)) (probes : List (Option Probe))
    → Any (λ d. d ≡ c) (startup core probes) ↔ (Any (λ o. o ≡ some c) core ⊎ Any (Offers c) probes)
unfolding startup
startup_lem c core probes =
    let both = Any-append c (non_nil core) (try_probes probes).1 in
    let left = core_lem c core in
    let right = try_probes-Offers c probes in
    (
      (λ h. elim (both.0 h) [ inl k ↦ inl (left.0 k) | inr k ↦ inr (right.0 k) ]),
      elim [ inl k ↦ both.1 (inl (left.1 k)) | inr k ↦ both.1 (inr (right.1 k)) ],
    )
