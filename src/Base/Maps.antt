-- ===== src/Base/Maps.antt =====
-- Go maps keyed by strings, as association lists. The order of the list stands for the order in
-- which `range` visits the map, which Go leaves open.
use mathlib.Core.Bool.{Bool, true, false, ◌||◌}
use mathlib.Core.List.{List, [], ◌∷◌}
use mathlib.Core.Option.{Option, none, some}
use mathlib.Core.Path.{◌≡◌, refl}
use native.Mathlib.Omega.{arith}
use prostometrics_agent.Base.Strings.{Bytes, ◌===◌, ===_iff}
use prostometrics_agent.Base.Tests.{if◌then◌else◌}

module _ {ℓ} {V : Type ℓ} where
  unfoldable pub lookup : Bytes → List (Bytes × V) → Option V
  lookup k [] = none
  lookup k ((j, v) ∷ m) = if j === k then some v else lookup k m

  unfoldable pub insert : Bytes → V → List (Bytes × V) → List (Bytes × V)
  insert k v [] = (k, v) ∷ []
  insert k v ((j, w) ∷ m) = if j === k then (k, v) ∷ m else (j, w) ∷ insert k v m

  -- Keeps the entries whose key passes the test: `delete` of all others.
  unfoldable pub keep_keys : (Bytes → Bool) → List (Bytes × V) → List (Bytes × V)
  keep_keys p [] = []
  keep_keys p ((j, v) ∷ m) = if p j then (j, v) ∷ keep_keys p m else keep_keys p m

  unfoldable pub has_key : Bytes → List (Bytes × V) → Bool
  has_key k [] = false
  has_key k ((j, v) ∷ m) = j === k || has_key k m

  pub lookup-insert :
      (k j : Bytes) (v : V) (m : List (Bytes × V))
      → lookup j (insert k v m) ≡ (if k === j then some v else lookup j m)
  unfolding lookup insert
  lookup-insert k j v [] = refl
  lookup-insert k j v ((i, w) ∷ m) =
      ground (arith, ===_iff k j, ===_iff i k, ===_iff i j, lookup-insert k j v m)

  pub lookup-keep_keys :
      (p : Bytes → Bool) (k : Bytes) (m : List (Bytes × V))
      → lookup k (keep_keys p m) ≡ (if p k then lookup k m else none)
  unfolding lookup keep_keys
  lookup-keep_keys p k [] = ground arith
  lookup-keep_keys p k ((j, v) ∷ m) = ground (arith, ===_iff j k, lookup-keep_keys p k m)

  pub has_key-none : (k : Bytes) (m : List (Bytes × V)) → has_key k m ≡ false → lookup k m ≡ none
  unfolding lookup has_key
  has_key-none k [] h = refl
  has_key-none k ((j, v) ∷ m) h = ground (arith, has_key-none k m)

pub ===_refl : (a : Bytes) → (a === a) ≡ true
===_refl a = (===_iff a a).1 refl
