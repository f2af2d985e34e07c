-- ===== src/Metrics.antt =====
-- The calls of the metrics client, which is another repository's: what a collector gives to them.
-- A float64 is given by the expression that it is computed from, before rounding.
pub mod Sent
pub mod Reals
use prostometrics_agent.Base.{ℕ, ◌<◌, Bool, List, [], ◌∷◌, Bytes}
use prostometrics_agent.Base.Integers.{ℤ, pos, negsuc}

pub data Reading : Type 0 where
  -- `float64(n)` and `float64(n)/1024.0`.
  whole : ℕ → Reading
  kilo : ℕ → Reading
  -- `float64(n)` of an int64 of either sign.
  integer : ℤ → Reading
  -- `float64(a)/float64(b)`, and `100.0*float64(a)/float64(b)*float64(k)`.
  ratio : ℕ → ℕ → Reading
  percent : ℕ → ℕ → ℕ → Reading
  -- `100.0*float64(a)/float64(b)`, then at most 100.
  share : ℕ → ℕ → Reading
  -- `Seconds()` of a number of nanoseconds.
  seconds : ℕ → Reading
  -- `float64(a)/float64(b)/1000.0`.
  millis : ℕ → ℕ → Reading

-- `prostometrics.Label(name, value)`, and a label that is written out.
pub data Label : Type 0 where
  label : Bytes → Bytes → Label
  written : Bytes → Label

pub data Emission : Type 0 where
  value : Bytes → Reading → List Label → Emission
  value_sparse : Bytes → Reading → List Label → Emission
  total : Bytes → Reading → List Label → Emission
  success : Bytes → Bool → List Label → Emission
  count : Bytes → ℕ → Emission

-- A reading that divides by no zero.
abbrev pub IsFinite : Reading → Type 0
IsFinite (whole n) = Unit
IsFinite (kilo n) = Unit
IsFinite (integer n) = Unit
IsFinite (seconds n) = Unit
IsFinite (ratio a b) = 0 < b
IsFinite (millis a b) = 0 < b
IsFinite (percent a b k) = 0 < b
IsFinite (share a b) = 0 < b

-- What a call sends is finite.
abbrev pub SendsFinite : Emission → Type 0
SendsFinite (value metric r labels) = IsFinite r
SendsFinite (value_sparse metric r labels) = IsFinite r
SendsFinite (total metric r labels) = IsFinite r
SendsFinite (success metric ok labels) = Unit
SendsFinite (count metric n) = Unit

-- `if v < 0 { return }` before an int64 is sent.
abbrev pub unless_negative : (ℕ → Emission) → ℤ → List Emission
unless_negative f (pos n) = f n ∷ []
unless_negative f (negsuc n) = []
