-- ===== src/Agent/Pool.antt =====
-- internal/agent/runner.go: `run`, `runCollector` and `collectOnce` as interleaved steps of the
-- collectors' goroutines over the semaphore `sem`, the cancelling of the context, and the close.
pub mod Safety
pub mod Shutdown
use prostometrics_agent.Agent.{max_concurrency}
use prostometrics_agent.Base.{
  ℕ, suc, ◌+◌, ◌<◌, Bool, true, false, List, [], ◌∷◌, ◌≡◌, Option, some, get_elem?, set, All, ◌-◌,
}

-- Where the goroutine of a collector stands: in the `select` on its ticker, before the semaphore in
-- `collectOnce`, in `safeCollect`, or returned.
pub data Phase : Type 0 where
  idle waiting collecting stopped : Phase

pub record Pool : Type 0 where
  pub phases : List Phase
  pub sem : ℕ
  pub cancelled : Bool
  pub closed : Bool

abbrev pub started : List Phase → Pool
started phases = record { phases = phases; sem = 0; cancelled = false; closed = false }

abbrev pub move : Pool → ℕ → Phase → Pool
move p i phase = record p { phases = set p.phases i phase }

pub data Step (p : Pool) : Pool → Type 0 where
  -- The ticker fires, or the collector was just started.
  tick : (i : ℕ) → get_elem? p.phases i ≡ some idle → Step p (move p i waiting)
  -- `r.sem <- struct{}{}` succeeds while the channel's buffer has room.
  acquire :
      (i : ℕ)
      → get_elem? p.phases i ≡ some waiting
      → p.sem < max_concurrency
      → Step p (record p { phases = set p.phases i collecting; sem = p.sem + 1 })
  -- The collection's own deadline passed, or the agent was cancelled, before there was room.
  give_up : (i : ℕ) → get_elem? p.phases i ≡ some waiting → Step p (move p i idle)
  -- `safeCollect` returned, with an error or without, or recovered from a panic; the deferred
  -- receive gives the place back.
  finish :
      (i : ℕ)
      → get_elem? p.phases i ≡ some collecting
      → Step p (record p { phases = set p.phases i idle; sem = p.sem - 1 })
  cancel : Step p (record p { cancelled = true })
  leave :
      (i : ℕ) → get_elem? p.phases i ≡ some idle → p.cancelled ≡ true → Step p (move p i stopped)
  -- `wg.Wait` has returned.
  close :
      p.cancelled ≡ true
      → All (λ phase. phase ≡ stopped) p.phases
      → Step p (record p { closed = true })

pub data Reach (p : Pool) : Pool → Type 0 where
  here : Reach p p
  next : {q r : Pool} → Reach p q → Step q r → Reach p r
