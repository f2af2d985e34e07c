-- ===== src/Text/Search.antt =====
-- The searching and cutting functions of Go's `strings` package. A position of -1 is `none`.
pub mod Positions
pub mod Parts
pub mod Appended
use mathlib.Core.Option
use prostometrics_agent.Base.{
  ℕ, suc, ◌+◌, ◌-◌, Bool, true, false, ◌&&◌, ◌||◌, List, [], ◌∷◌, ◌++◌, Option, none, some, leb,
  ◌==◌, if◌then◌else◌, Bytes, ◌===◌, length, take, drop, reverse,
}

unfoldable pub has_prefix : Bytes → Bytes → Bool
has_prefix s [] = true
has_prefix [] (p ∷ ps) = false
has_prefix (c ∷ s) (p ∷ ps) = c == p && has_prefix s ps

unfoldable pub trim_prefix : Bytes → Bytes → Bytes
unfolding has_prefix
trim_prefix s p = if has_prefix s p then drop (length p) s else s

unfoldable pub has_suffix : Bytes → Bytes → Bool
unfolding ◌===◌
has_suffix s p = leb (length p) (length s) && (drop (length s - length p) s === p)

unfoldable pub trim_suffix : Bytes → Bytes → Bytes
unfolding has_suffix
trim_suffix s p = if has_suffix s p then take (length s - length p) s else s

-- The first, and the last, position of a byte that passes a test.
unfoldable pub index_where : (ℕ → Bool) → Bytes → Option ℕ
index_where p [] = none
index_where p (c ∷ s) = if p c then some 0 else Option.map suc (index_where p s)

unfoldable pub last_index_where : (ℕ → Bool) → Bytes → Option ℕ
last_index_where p [] = none
last_index_where p (c ∷ s) = elim (last_index_where p s) [
  | some i ↦ some (suc i)
  | none ↦ if p c then some 0 else none
]

unfoldable pub index_byte : Bytes → ℕ → Option ℕ
unfolding index_where
index_byte s b = index_where (λ c. c == b) s

unfoldable pub last_index_byte : Bytes → ℕ → Option ℕ
unfolding last_index_where
last_index_byte s b = last_index_where (λ c. c == b) s

unfoldable pub is_one_of : Bytes → ℕ → Bool
is_one_of [] c = false
is_one_of (b ∷ bs) c = c == b || is_one_of bs c

-- `IndexAny` and `ContainsAny` with a set of ASCII bytes.
unfoldable pub index_any : Bytes → Bytes → Option ℕ
unfolding index_where is_one_of
index_any s bs = index_where (is_one_of bs) s

-- `Index`, of a text in a text.
unfoldable pub index : Bytes → Bytes → Option ℕ
unfolding has_prefix
index [] p = if has_prefix [] p then some 0 else none
index (c ∷ s) p = if has_prefix (c ∷ s) p then some 0 else Option.map suc (index s p)

-- `if i >= 0 { s = s[:i] }` and `if i >= 0 { s = s[i+n:] }`
unfoldable pub before_index : Option ℕ → Bytes → Bytes
before_index none s = s
before_index (some i) s = take i s

unfoldable pub after_index : ℕ → Option ℕ → Bytes → Bytes
after_index n none s = s
after_index n (some i) s = drop (i + n) s

-- `Cut` at a single byte: the texts before and after it, and none if it does not stand there.
unfoldable pub cut : Bytes → ℕ → Option (Bytes × Bytes)
unfolding index_byte
cut s b = Option.map (λ i. (take i s, drop (i + 1) s)) (index_byte s b)

unfoldable pub split_from : ℕ → Bytes → Bytes → List Bytes
split_from b cur [] = cur ∷ []
split_from b cur (c ∷ s) =
    let next = cur ∷ split_from b [] s in
    let more = split_from b (cur ++ c ∷ []) s in if c == b then next else more

-- `Split` at a single byte.
unfoldable pub split : Bytes → ℕ → List Bytes
unfolding split_from
split s b = split_from b [] s

-- `Join` with a single byte.
unfoldable pub join : List Bytes → ℕ → Bytes
join [] b = []
join (p ∷ []) b = p
join (p ∷ q ∷ ps) b = p ++ b ∷ join (q ∷ ps) b

-- `Trim` with a set of ASCII bytes.
unfoldable pub trim_left_of : Bytes → Bytes → Bytes
unfolding is_one_of
trim_left_of bs [] = []
trim_left_of bs (c ∷ s) = if is_one_of bs c then trim_left_of bs s else c ∷ s

-- `Trim` and `TrimRight`.
unfoldable pub trim_right_of : Bytes → Bytes → Bytes
trim_right_of bs s = reverse (trim_left_of bs (reverse s))

unfoldable pub trim_of : Bytes → Bytes → Bytes
trim_of bs s = trim_right_of bs (trim_left_of bs s)
