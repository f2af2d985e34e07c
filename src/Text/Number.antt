-- ===== src/Text/Number.antt =====
-- `strconv.Itoa`, `ParseUint`, `ParseInt` and `Atoi` in base 10.
pub mod Inverse
use prostometrics_agent.Base.{
  ℕ, zero, suc, ◌+◌, ◌-◌, ◌*◌, ◌/◌, ◌%◌, ◌^◌, Bool, true, false, ◌||◌, [], ◌∷◌, Option, none, some,
  ◌≡◌, refl, ltb, ◌==◌, if◌then◌else◌, Bytes, codes,
}
use prostometrics_agent.Base.Integers.{ℤ, pos, neg}

abbrev pub max_uint64 : ℕ
max_uint64 = 2 ^ 64 - 1

-- Each round divides by ten, so a fuel above the number is enough.
unfoldable pub digits : ℕ → ℕ → Bytes → Bytes
digits zero n out = out
digits (suc f) n out =
    let more = digits f (n / 10) ((b'0' + n % 10) ∷ out) in
    if ltb n 10 then (b'0' + n) ∷ out else more

unfoldable pub itoa : ℕ → Bytes
unfolding digits
itoa n = digits (suc n) n []

-- The value read so far and whether it was read without error. A syntax error gives 0, and a number
-- out of range gives the largest.
unfoldable pub scan_uint : Bytes → ℕ → ℕ × Bool
scan_uint [] n = (n, true)
scan_uint (c ∷ s) n =
    if ltb c b'0' || ltb b'9' c
    then (0, false)
    else if ltb max_uint64 (n * 10 + (c - b'0'))
    then (max_uint64, false)
    else scan_uint s (n * 10 + (c - b'0'))

unfoldable pub parse_uint : Bytes → ℕ × Bool
unfolding scan_uint
parse_uint [] = (0, false)
parse_uint (c ∷ s) = scan_uint (c ∷ s) 0

abbrev pub signed : Bool → ℕ × Bool → Option ℤ
signed negative (n, false) = none
signed false (n, true) = if ltb n (2 ^ 63) then some (pos n) else none
signed true (n, true) = if ltb (2 ^ 63) n then none else some (neg n)

-- `ParseInt` for 64 bits, and so `Atoi`; an error is `none`.
unfoldable pub parse_int : Bytes → Option ℤ
unfolding parse_uint
parse_int [] = none
parse_int (c ∷ s) =
    if c == b'-'
    then signed true (parse_uint s)
    else if c == b'+'
    then signed false (parse_uint s)
    else signed false (parse_uint (c ∷ s))
