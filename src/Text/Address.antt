-- ===== src/Text/Address.antt =====
-- `net.SplitHostPort` and `net.JoinHostPort`. An error is none.
pub mod Ports
use mathlib.Core.Option
use prostometrics_agent.Base.{
  ℕ, suc, ◌+◌, ◌-◌, Bool, true, false, ◌||◌, List, [], ◌∷◌, ◌++◌, Option, none, some, Bytes,
  if◌then◌else◌, ◌==◌, length, take, drop, is_some,
}
use prostometrics_agent.Text.Search.{has_prefix, index_byte, last_index_byte}

abbrev contains_byte : Bytes → ℕ → Bool
contains_byte s b = is_some (index_byte s b)

-- A bracket that stands where none may, from the given positions on, is an error.
abbrev checked : Bytes → ℕ → ℕ → Bytes × Bytes → Option (Bytes × Bytes)
checked s j k parts =
    if contains_byte (drop j s) b'[' || contains_byte (drop k s) b']' then none else some parts

-- The host in brackets must end right before the last colon.
abbrev bracketed : Bytes → ℕ → Option ℕ → Option (Bytes × Bytes)
bracketed s i none = none
bracketed s i (some end) =
    if suc end == i then checked s 1 (suc end) (take (end - 1) (drop 1 s), drop (suc i) s) else none

abbrev pub plain : Bytes → ℕ → Option (Bytes × Bytes)
plain s i = if contains_byte (take i s) b':' then none else checked s 0 0 (take i s, drop (suc i) s)

abbrev split_at : Bytes → Option ℕ → Option (Bytes × Bytes)
split_at s none = none
split_at s (some i) =
    let inside = bracketed s i (index_byte s b']') in
    let outside = plain s i in if has_prefix s (b'[' ∷ []) then inside else outside

unfoldable pub split_host_port : Bytes → Option (Bytes × Bytes)
split_host_port s = split_at s (last_index_byte s b':')

-- The host alone.
unfoldable pub split_host : Bytes → Option Bytes
unfolding split_host_port
split_host s = Option.map (λ (p : Bytes × Bytes). p.0) (split_host_port s)

unfoldable pub join_host_port : Bytes → Bytes → Bytes
join_host_port host port =
    if contains_byte host b':' then (b'[' ∷ host) ++ b']' ∷ b':' ∷ port else host ++ b':' ∷ port
