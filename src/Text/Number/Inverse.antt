-- ===== src/Text/Number/Inverse.antt =====
-- `Atoi` reads back what `Itoa` writes.
use prostometrics_agent.Base.{
  ℕ, zero, suc, ◌+◌, ◌/◌, ◌%◌, ◌^◌, ◌≤◌, ◌<◌, false, [], ◌∷◌, some, ◌≡◌, arith, Bytes, All, length,
  ap, ◌∙◌,
}
use prostometrics_agent.Base.Integers.{pos}
use prostometrics_agent.Text.Number.{
  max_uint64, digits, itoa, scan_uint, parse_uint, parse_int, signed,
}

abbrev pub IsDigit : ℕ → Type 0
IsDigit c = (48 ≤ c) × (c ≤ 57)

digits-All : (f n : ℕ) (out : Bytes) → All IsDigit out → All IsDigit (digits f n out)
unfolding digits
digits-All zero n out h = h
digits-All (suc f) n out h =
    ground (arith, h, digits-All f (n / 10) ((48 + n % 10) ∷ out) (omega arith, h))

pub itoa-digits : (n : ℕ) → All IsDigit (itoa n)
unfolding itoa
itoa-digits n = digits-All (suc n) n [] tt

scan_digits :
    (f n : ℕ) (out : Bytes)
    → n < f
    → n ≤ max_uint64
    → scan_uint (digits f n out) 0 ≡ scan_uint out n
unfolding digits scan_uint
scan_digits zero n out h k = absurd (omega arith)
scan_digits (suc f) n out h k = ground (arith, scan_digits f (n / 10) ((48 + n % 10) ∷ out))

digits-length : (f n : ℕ) (out : Bytes) → length out ≤ length (digits f n out)
unfolding digits
digits-length zero n out = omega arith
digits-length (suc f) n out = ground (arith, digits-length f (n / 10) ((48 + n % 10) ∷ out))

pub itoa-length : (n : ℕ) → 1 ≤ length (itoa n)
unfolding itoa digits
itoa-length n = ground (arith, digits-length n (n / 10) ((48 + n % 10) ∷ []))

parse_int-digits :
    (s : Bytes) → All IsDigit s → 1 ≤ length s → parse_int s ≡ signed false (scan_uint s 0)
unfolding parse_int parse_uint
parse_int-digits [] h k = absurd (omega arith)
parse_int-digits (c ∷ s) h k = ground arith

-- `Atoi` of what `Itoa` writes is the number, for every number that an `int` holds.
pub parse_int-itoa : (n : ℕ) → n < 2 ^ 63 → parse_int (itoa n) ≡ some (pos n)
unfolding itoa scan_uint
parse_int-itoa n h =
    parse_int-digits (itoa n) (itoa-digits n) (itoa-length n)
    ∙ ap (signed false) (scan_digits (suc n) n [] (omega arith) (omega arith))
    ∙ ground arith
