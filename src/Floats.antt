-- ===== src/Floats.antt =====
-- What the agent does with float64 values, whose arithmetic is not modelled: it reads them from text,
-- asks whether they are negative, and converts them to integers.
use prostometrics_agent.Base.{ℕ, Bool, Option, Bytes}
use prostometrics_agent.Base.Integers.{ℤ, pos, ltb_ℤ, pos_part}
use prostometrics_agent.Text.Number.{parse_int}

pub record Floats : Type 1 where
  pub F : Type 0
  -- `strconv.ParseFloat(s, 64)`, with an error as `none`.
  pub parse_float : Bytes → Option F
  pub is_negative : F → Bool
  -- `uint64(v)`.
  pub to_uint : F → ℕ

-- The integers among them, for examples.
abbrev pub whole_floats : Floats
whole_floats = record {
  F = ℤ;
  parse_float = parse_int;
  is_negative = λ v. ltb_ℤ v (pos 0);
  to_uint = pos_part;
}
