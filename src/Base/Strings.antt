-- ===== src/Base/Strings.antt =====
-- Go strings as lists of bytes, and their equality test.
use Prim.Native.Nat.{ℕ}
use Prim.Native.Char.{code}
use Prim.Native.String.{String}
use mathlib.Core.Path.{◌≡◌}
use mathlib.Core.Logic.{◌≢◌, ◌↔◌}
use mathlib.Core.Bool.{Bool, true, false, ◌&&◌, ◌||◌}
use mathlib.Core.List.{List, [], ◌∷◌}
use native.Mathlib.Omega.{arith}
use prostometrics_agent.Base.Lists.{All}
use prostometrics_agent.Base.Tests.{◌==◌}

abbrev pub Bytes : Type 0
Bytes = List ℕ

-- The bytes of a literal; every literal here is ASCII.
abbrev pub codes : String → Bytes
codes String.[] = []
codes (String.◌∷◌ c s) = code c ∷ codes s

infix 50 ◌===◌
unfoldable pub ◌===◌ : Bytes → Bytes → Bool
◌===◌ [] [] = true
◌===◌ [] (y ∷ ys) = false
◌===◌ (x ∷ xs) [] = false
◌===◌ (x ∷ xs) (y ∷ ys) = x == y && ◌===◌ xs ys

pub ===_iff : (a b : Bytes) → ((a === b) ≡ true) ↔ (a ≡ b)
unfolding ◌===◌
===_iff [] [] = ground arith
===_iff [] (y ∷ ys) = ground arith
===_iff (x ∷ xs) [] = ground arith
===_iff (x ∷ xs) (y ∷ ys) = ground (arith, ===_iff xs ys)

abbrev pub Lacks : ℕ → Bytes → Type 0
Lacks b = All (λ c. c ≢ b)

unfoldable pub elem_bytes : Bytes → List Bytes → Bool
elem_bytes s [] = false
elem_bytes s (t ∷ ts) = s === t || elem_bytes s ts
