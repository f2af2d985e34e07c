-- ===== src/Nginx/Status/Keys.antt =====
-- Numbers and keys on the lines of a status page.
use prostometrics_agent.Base.{
  ℕ, ◌^◌, ◌<◌, ◌≤◌, false, List, [], ◌∷◌, some, Bytes, codes, ◌≡◌, refl, arith, All, ◌===◌,
}
use prostometrics_agent.Base.Integers.{pos}
use prostometrics_agent.Nginx.Status.{parse_int, parse_key}
use prostometrics_agent.Text.Case.{equal_fold, lower_byte}
use prostometrics_agent.Text.Number.{itoa}
use prostometrics_agent.Text.Number.Inverse.{IsDigit, itoa-digits, itoa-length, parse_int-itoa}
use prostometrics_agent.Text.Search.{has_prefix}
use prostometrics_agent.Text.Space.{is_ascii_space}
use prostometrics_agent.Text.Space.Solid.{IsSolid, trim_space-All_solid}
use prostometrics_agent.Text.Space.Words.{IsWord}

digits-IsSolid : (s : Bytes) → All IsDigit s → All IsSolid s
unfolding is_ascii_space
digits-IsSolid [] h = tt
digits-IsSolid (c ∷ s) (h, hs) = (ground arith, digits-IsSolid s hs)

pub number-IsWord : (n : ℕ) → IsWord (itoa n)
number-IsWord n = (
  λ e. absurd (ground (arith, itoa-length n, rw e at (itoa-length n))),
  digits-IsSolid (itoa n) (itoa-digits n),
)

pub parse_int-number : (n : ℕ) → n < 2 ^ 63 → parse_int (itoa n) ≡ some (pos n)
unfolding parse_int
parse_int-number n h =
    rw (trim_space-All_solid (itoa n) (digits-IsSolid (itoa n) (itoa-digits n)))
      (parse_int-itoa n h)

-- Digits are no word of letters.
pub digits-fold : (s : Bytes) → All IsDigit s → equal_fold s (codes "active") ≡ false
unfolding equal_fold lower_byte
digits-fold [] h = refl
digits-fold (c ∷ []) h = ground arith
digits-fold (c ∷ d ∷ []) h = ground arith
digits-fold (c ∷ d ∷ e ∷ s) h = ground arith

digits-prefix : (s p : Bytes) (t : ℕ) → All IsDigit s → 58 ≤ t → has_prefix s (t ∷ p) ≡ false
unfolding has_prefix
digits-prefix [] p t h k = refl
digits-prefix (c ∷ s) p t h k = ground arith

digits-differ : (s p : Bytes) (t : ℕ) → All IsDigit s → 58 ≤ t → (s === t ∷ p) ≡ false
unfolding ◌===◌
digits-differ [] p t h k = refl
digits-differ (c ∷ s) p t h k = ground arith

abbrev pub states_words : ℕ → ℕ → ℕ → List Bytes
states_words r w v =
    codes "Reading:" ∷ itoa r ∷ codes "Writing:" ∷ itoa w ∷ codes "Waiting:" ∷ itoa v ∷ []

pub reading-found :
    (r w v : ℕ) → r < 2 ^ 63 → parse_key (codes "Reading:") (states_words r w v) ≡ some (pos r)
unfolding parse_key ◌===◌
reading-found r w v h = parse_int-number r h

pub writing-found :
    (r w v : ℕ) → w < 2 ^ 63 → parse_key (codes "Writing:") (states_words r w v) ≡ some (pos w)
unfolding parse_key ◌===◌ has_prefix
writing-found r w v h =
    rw
      (
        digits-differ (itoa r) (codes "riting:") b'W' (itoa-digits r) (omega arith),
        digits-prefix (itoa r) (codes "riting:") b'W' (itoa-digits r) (omega arith),
      )
      (parse_int-number w h)

pub waiting-found :
    (r w v : ℕ) → v < 2 ^ 63 → parse_key (codes "Waiting:") (states_words r w v) ≡ some (pos v)
unfolding parse_key ◌===◌ has_prefix
waiting-found r w v h =
    rw
      (
        digits-differ (itoa r) (codes "aiting:") b'W' (itoa-digits r) (omega arith),
        digits-prefix (itoa r) (codes "aiting:") b'W' (itoa-digits r) (omega arith),
        digits-differ (itoa w) (codes "aiting:") b'W' (itoa-digits w) (omega arith),
        digits-prefix (itoa w) (codes "aiting:") b'W' (itoa-digits w) (omega arith),
      )
      (parse_int-number v h)
