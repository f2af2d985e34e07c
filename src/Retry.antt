-- ===== src/Retry.antt =====
-- internal/collectors: the loop over instances of `Collect`, which the collectors of Redis,
-- PostgreSQL, MySQL, MongoDB and RabbitMQ share line by line, and the retry interval of their
-- `NewCollector`. A time is a number of nanoseconds, and the zero `time.Time` is 0.
pub mod Backoff
use prostometrics_agent.Base.{
  ℕ, ◌+◌, Bool, true, false, List, [], ◌∷◌, ◌++◌, if◌then◌else◌, ltb, map,
}
use prostometrics_agent.Base.Integers.{ℤ, pos, pos_part, ltb_ℤ}

-- What is kept of an instance: its own state, and the time before which it is left alone.
pub record Slot (S : Type 0) : Type 0 where
  pub state : S
  pub next_attempt : ℕ

-- What `collectInstance` does: what it sends, the state it leaves, and whether it returns an error.
pub record Attempt (E S : Type 0) : Type 0 where
  pub sent : List E
  pub after : S
  pub failed : Bool

-- An instance when its turn comes: whether the context is cancelled by then, and what the service
-- would answer.
pub record Turn (A S : Type 0) : Type 0 where
  pub cancelled : Bool
  pub answers : A
  pub slot : Slot S

unfoldable pub retry_every_of : ℤ → ℕ
retry_every_of every = if ltb_ℤ (pos 0) every then pos_part every else 60_000_000_000

abbrev pub new_slot : {S : Type 0} → S → Slot S
new_slot state = record { state = state; next_attempt = 0 }

abbrev pub slot_of : {A S : Type 0} → Turn A S → Slot S
slot_of t = t.slot

module _ {A E S : Type 0} (retry_every : ℕ) (collect_instance : A → S → Attempt E S)
    (reset : S → S) where
  unfoldable pub settle : ℕ → Slot S → Attempt E S → Slot S
  settle now slot a =
      if a.failed
      then record { state = reset a.after; next_attempt = now + retry_every }
      else record { state = a.after; next_attempt = slot.next_attempt }

  abbrev pub visit :
      ℕ → Turn A S → List (Turn A S) → List E × List (Slot S) → List E × List (Slot S)
  visit now t others (sent, slots) =
      let a = collect_instance t.answers t.slot.state in
      if ltb now t.slot.next_attempt
      then (sent, t.slot ∷ slots)
      else if t.cancelled
      then ([], t.slot ∷ map slot_of others)
      else (a.sent ++ sent, settle now t.slot a ∷ slots)

  unfoldable pub collect_turns : ℕ → List (Turn A S) → List E × List (Slot S)
  collect_turns now [] = ([], [])
  collect_turns now (t ∷ ts) = visit now t ts (collect_turns now ts)
