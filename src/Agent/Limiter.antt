-- ===== src/Agent/Limiter.antt =====
-- internal/agent/runner.go: `logLimiter`. A time is the number of nanoseconds of the monotonic clock.
use prostometrics_agent.Base.{
  ℕ, ◌+◌, ◌≤◌, ◌<◌, Bool, true, false, List, [], ◌∷◌, ◌≡◌, ◌≢◌, ◌↔◌, ◌⊎◌, Option, none, some,
  if◌then◌else◌, arith, leb, Bytes, ◌===◌, ===_iff, Bool-cases, inl, inr,
}
use prostometrics_agent.Base.Maps.{lookup, insert, lookup-insert}

-- `last` is the map of that name.
pub record LogLimiter : Type 0 where
  pub every : ℕ
  pub last : List (Bytes × ℕ)

unfoldable pub new_log_limiter : ℕ → LogLimiter
new_log_limiter every = record { every = every; last = [] }

-- `!ok || now.Sub(last) >= l.every`
unfoldable pub is_due : ℕ → Option ℕ → ℕ → Bool
is_due every none now = true
is_due every (some t) now = leb (t + every) now

unfoldable pub allow : LogLimiter → Bytes → ℕ → LogLimiter × Bool
unfolding is_due
allow l key now =
    if is_due l.every (lookup key l.last) now
    then (record l { last = insert key now l.last }, true)
    else (l, false)

-- The calls of `Allow` in order, each with its time, and the times at which `key` was allowed.
unfoldable pub allowed_times : Bytes → LogLimiter → List (Bytes × ℕ) → List ℕ
unfolding allow
allowed_times key l [] = []
allowed_times key l ((k, now) ∷ calls) =
    let (l', allowed) = allow l k now in
    let rest = allowed_times key l' calls in
    if k === key then (if allowed then now ∷ rest else rest) else rest

-- Each time is at least `every` after the one before it, and the first after `before`.
abbrev pub Spaced : ℕ → Option ℕ → List ℕ → Type 0
Spaced every before [] = Unit
Spaced every none (t ∷ ts) = Spaced every (some t) ts
Spaced every (some b) (t ∷ ts) = (b + every ≤ t) × Spaced every (some t) ts

allow-last :
    (l : LogLimiter) (k key : Bytes) (now : ℕ)
    → lookup key (allow l k now).0.last ≡ (
        if k === key
        then (if (allow l k now).1 then some now else lookup key l.last)
        else lookup key l.last)
unfolding allow
allow-last l k key now = ground (arith, lookup-insert k key now l.last)

allow-every : (l : LogLimiter) (k : Bytes) (now : ℕ) → (allow l k now).0.every ≡ l.every
unfolding allow
allow-every l k now = ground arith

Spaced-cons :
    (every : ℕ) (before : Option ℕ) (now : ℕ) (ts : List ℕ)
    → is_due every before now ≡ true
    → Spaced every (some now) ts
    → Spaced every before (now ∷ ts)
unfolding is_due
Spaced-cons every none now ts h s = s
Spaced-cons every (some b) now ts h s = (ground arith, s)

allow_due :
    (l : LogLimiter) (key : Bytes) (now : ℕ)
    → (allow l key now).1 ≡ is_due l.every (lookup key l.last) now
unfolding allow
allow_due l key now = ground arith

allowed_times-from :
    (key : Bytes) (l : LogLimiter) (calls : List (Bytes × ℕ))
    → Spaced l.every (lookup key l.last) (allowed_times key l calls)
unfolding allowed_times
allowed_times-from key l [] = tt
allowed_times-from key l ((k, now) ∷ calls) =
    let ih =
      rw (allow-every l k now, allow-last l k key now) at
        (allowed_times-from key (allow l k now).0 calls) in
    elim (Bool-cases (k === key)) [
      | inr other ↦ rw other (rw other at ih)
      | inl same ↦ elim (Bool-cases (allow l k now).1) [
        | inr held ↦ rw (same, held) (rw (same, held) at ih)
        | inl let_through ↦
            rw (same, let_through)
              (Spaced-cons l.every _ now _
                (rw (← (===_iff k key).0 same, ← allow_due l k now) let_through)
                (rw (same, let_through) at ih))
      ]
    ]

-- However the calls come, two messages of one key are let through at least `every` apart.
pub allowed_times-Spaced :
    (key : Bytes) (every : ℕ) (calls : List (Bytes × ℕ))
    → Spaced every none (allowed_times key (new_log_limiter every) calls)
unfolding new_log_limiter lookup
allowed_times-Spaced key every calls = allowed_times-from key (new_log_limiter every) calls

-- A message is held back exactly when one of its own key was let through less than `every` ago.
-- Then the limiter stays as it was, and no call touches the time of another key.
pub allow_lem :
    (l : LogLimiter) (key other : Bytes) (now : ℕ)
    → key ≢ other
    → (((allow l key now).1 ≡ false)
        ↔ ((t : ℕ) × (lookup key l.last ≡ some t) × (now < t + l.every)))
      × (((allow l key now).1 ≡ true) ⊎ ((allow l key now).0 ≡ l))
      × (lookup other (allow l key now).0.last ≡ lookup other l.last)
unfolding allow
allow_lem l key other now ne = (
  ((λ h. ground arith), (λ (t, e, lt). ground arith)),
  ground arith,
  ground (arith, lookup-insert key other now l.last, ===_iff key other),
)
