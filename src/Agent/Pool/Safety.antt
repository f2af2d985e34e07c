-- ===== src/Agent/Pool/Safety.antt =====
-- The semaphore counts the collections that run, on every interleaving.
use prostometrics_agent.Agent.{max_concurrency}
use prostometrics_agent.Agent.Pool.{
  Phase, idle, waiting, collecting, stopped, Pool, started, Step, tick, acquire, give_up, finish,
  cancel, leave, close, Reach, here, next,
}
use prostometrics_agent.Base.{
  ℕ, zero, suc, ◌+◌, ◌≤◌, true, false, List, [], ◌∷◌, ◌≡◌, ◌≢◌, refl, sym, ◌⊎◌, inl, inr,
  Bool-cases, some, arith, get_elem?, set, All, All-set,
}

-- 1 for a collection that runs.
abbrev pub load : Phase → ℕ
load collecting = 1
load _ = 0

abbrev pub in_flight : List Phase → ℕ
in_flight [] = 0
in_flight (x ∷ xs) = load x + in_flight xs

in_flight-set :
    (xs : List Phase) (i : ℕ) (x y : Phase)
    → get_elem? xs i ≡ some x
    → in_flight (set xs i y) + load x ≡ in_flight xs + load y
in_flight-set [] i x y h = cc
in_flight-set (z ∷ xs) zero x y h = ground arith
in_flight-set (z ∷ xs) (suc i) x y h = omega (arith, in_flight-set xs i x y h)

stopped_at :
    (xs : List Phase) (i : ℕ) (x : Phase)
    → All (λ phase. phase ≡ stopped) xs
    → get_elem? xs i ≡ some x
    → x ≡ stopped
stopped_at [] i x h e = cc
stopped_at (y ∷ xs) zero x h e = ground arith
stopped_at (y ∷ xs) (suc i) x h e = stopped_at xs i x h.1 e

-- After the close no goroutine is left.
pub record IsSafe (p : Pool) : Type 0 where
  pub counted : p.sem ≡ in_flight p.phases
  pub bounded : p.sem ≤ max_concurrency
  pub all_stopped : p.closed ≡ true → All (λ phase. phase ≡ stopped) p.phases

-- A goroutine that has not returned can only move before the close.
still_open :
    {p : Pool} (i : ℕ) {x : Phase}
    → IsSafe p
    → get_elem? p.phases i ≡ some x
    → x ≢ stopped
    → p.closed ≢ true
still_open {p} i {x} s e ne c = ne (stopped_at p.phases i x (s.all_stopped c) e)

pub Step-IsSafe : {p q : Pool} → Step p q → IsSafe p → IsSafe q
Step-IsSafe {p} (tick i e) s = record {
  counted = omega (arith, s.counted, in_flight-set p.phases i idle waiting e);
  bounded = s.bounded;
  all_stopped = λ c. absurd (still_open i s e (λ h. cc) c);
}
Step-IsSafe {p} (acquire i e room) s = record {
  counted = omega (arith, s.counted, in_flight-set p.phases i waiting collecting e);
  bounded = omega (arith, s.bounded);
  all_stopped = λ c. absurd (still_open i s e (λ h. cc) c);
}
Step-IsSafe {p} (give_up i e) s = record {
  counted = omega (arith, s.counted, in_flight-set p.phases i waiting idle e);
  bounded = s.bounded;
  all_stopped = λ c. absurd (still_open i s e (λ h. cc) c);
}
Step-IsSafe {p} (finish i e) s = record {
  counted = omega (arith, s.counted, in_flight-set p.phases i collecting idle e);
  bounded = omega (arith, s.bounded);
  all_stopped = λ c. absurd (still_open i s e (λ h. cc) c);
}
Step-IsSafe cancel s = record {
  counted = s.counted;
  bounded = s.bounded;
  all_stopped = s.all_stopped;
}
Step-IsSafe {p} (leave i e c) s = record {
  counted = omega (arith, s.counted, in_flight-set p.phases i idle stopped e);
  bounded = s.bounded;
  all_stopped = λ k. All-set _ p.phases i stopped refl (s.all_stopped k);
}
Step-IsSafe (close c all) s = record {
  counted = s.counted;
  bounded = s.bounded;
  all_stopped = λ k. all;
}

idle_load : (phases : List Phase) → All (λ phase. phase ≡ idle) phases → in_flight phases ≡ 0
idle_load [] h = refl
idle_load (x ∷ xs) h = ground (arith, idle_load xs)

Reach-IsSafe :
    {phases : List Phase} {p : Pool}
    → All (λ phase. phase ≡ idle) phases
    → Reach (started phases) p
    → IsSafe p
Reach-IsSafe {phases} h here = record {
  counted = sym (idle_load phases h);
  bounded = omega arith;
  all_stopped = λ c. absurd (cc);
}
Reach-IsSafe h (next r st) = Step-IsSafe st (Reach-IsSafe h r)

stopped_load : (phases : List Phase) → All (λ phase. phase ≡ stopped) phases → in_flight phases ≡ 0
stopped_load [] h = refl
stopped_load (x ∷ xs) h = ground (arith, stopped_load xs)

-- From a start with any number of collectors, whatever the order of ticks, timeouts, panics and the
-- cancelling, the semaphore holds one place for each running collection, at most `MaxConcurrency`
-- collections run at once, and none runs any more when the collectors have been closed.
pub concurrency_bounded :
    {phases : List Phase} {p : Pool}
    → All (λ phase. phase ≡ idle) phases
    → Reach (started phases) p
    → (p.sem ≡ in_flight p.phases)
      × (in_flight p.phases ≤ max_concurrency)
      × ((p.closed ≡ false) ⊎ (in_flight p.phases ≡ 0))
concurrency_bounded {p = p} h r =
    let s = Reach-IsSafe h r in
    (
      s.counted,
      omega (arith, s.counted, s.bounded),
      elim (Bool-cases p.closed) [
        | inl c ↦ inr (stopped_load p.phases (s.all_stopped c))
        | inr c ↦ inl c
      ],
    )
