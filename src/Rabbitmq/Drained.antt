-- ===== src/Rabbitmq/Drained.antt =====
-- A queue whose depth was reported does not keep its last depth.
use prostometrics_agent.Base.{
  ℕ, ◌≤◌, true, false, List, [], ◌∷◌, Option, some, Bytes, codes, ◌≡◌, ◌⊎◌, refl, length,
  elem_bytes, take,
}
use prostometrics_agent.Base.Integers.{pos_part}
use prostometrics_agent.Metrics.{Label, label, Emission, value_sparse, whole}
use prostometrics_agent.Metrics.Sent.{In}
use prostometrics_agent.Rabbitmq.{InstanceState, Overview, QueueInfo}
use prostometrics_agent.Retry.{Attempt}
use prostometrics_agent.Text.Space.{trim_space}

-- Both depths of a queue are among the calls, with these values.
abbrev pub HasDepths : Label → Bytes → ℕ → ℕ → List Emission → Type 0
HasDepths inst name ready unacknowledged sent =
    In
      (value_sparse (codes "rabbitmq.queue_messages") (whole ready)
        (inst ∷ label (codes "queue") name ∷ label (codes "state") (codes "ready") ∷ []))
      sent
    × In
        (value_sparse (codes "rabbitmq.queue_messages") (whole unacknowledged)
          (inst ∷ label (codes "queue") name ∷ label (codes "state") (codes "unacknowledged") ∷ []))
        sent

abbrev pub IsListed : QueueInfo → List QueueInfo → Type 0
IsListed q [] = ⊥
IsListed q (p ∷ ps) = (q ≡ p) ⊎ IsListed q ps

-- One of the queues has this name, and its depths, never below zero, are sent.
abbrev pub Reported : Label → Bytes → List QueueInfo → List Emission → Type 0
Reported inst name queues sent =
    (q : QueueInfo) × IsListed q queues
    × (trim_space q.name ≡ name)
    × HasDepths inst name (pos_part q.ready) (pos_part q.unacknowledged) sent

module _ (inst : Label) (name : Bytes) where
  elem-nil : elem_bytes name [] ≡ false
  unfolding elem_bytes
  elem-nil = refl

-- The depths of the queue are sent: those of a queue that is kept, and zeros otherwise.
abbrev pub IsFollowed : Label → Bytes → List QueueInfo → List Emission → List Bytes → Type 0
IsFollowed inst name kept sent after =
    ((elem_bytes name after ≡ true) × Reported inst name kept sent)
    ⊎ ((elem_bytes name after ≡ false) × HasDepths inst name 0 0 sent)

module _ (sort_queues : List QueueInfo → List QueueInfo) where
  -- The queue is followed in what was read, or nothing could be read.
  abbrev pub Continues :
      InstanceState
      → Bytes
      → Option Overview
      → Option (List QueueInfo)
      → Attempt Emission InstanceState
      → Type 0
  Continues s name (some view) (some queues) r =
      (length r.after.last_queues ≤ 20)
      × IsFollowed (label (codes "instance") s.config.label) name (take 20 (sort_queues queues))
          r.sent r.after.last_queues
  Continues s name _ _ r = r.after ≡ s
