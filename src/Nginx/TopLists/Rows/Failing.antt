-- ===== src/Nginx/TopLists/Rows/Failing.antt =====
-- Which failed requests are ranked.
use prostometrics_agent.Base.{
  ℕ, zero, suc, ◌/◌, ◌<◌, ◌≤◌, Bool, true, false, not, ◌||◌, ◌&&◌, [], ◌∷◌, ◌++◌, ◌≡◌, ◌≢◌, ◌↔◌,
  ◌⊎◌, inl, inr, refl, sym, ◌∙◌, arith, Bytes, All, Bool-cases, some, if◌then◌else◌, ltb, ◌==◌,
  take, length,
}
use prostometrics_agent.Nginx.Item.{
  clamp_item, valid_string, scan_utf8, lead, has_control, is_control,
}
use prostometrics_agent.Nginx.Item.Clamp.{clamp_item_keeps}
use prostometrics_agent.Nginx.TopLists.Rows.{failing_row, routine_status}
use prostometrics_agent.Nginx.TopLists.Segments.{is_empty}
use prostometrics_agent.Text.Number.{itoa, digits}

-- The bytes of a decimal number, and a space.
abbrev Plain : ℕ → Type 0
Plain c = (0x20 ≤ c) × (c ≤ b'9')

digits-Plain : (f n : ℕ) (out : Bytes) → All Plain out → All Plain (digits f n out)
unfolding digits
digits-Plain zero n out h = h
digits-Plain (suc f) n out h = elim (Bool-cases (ltb n 10)) [
  | inl e ↦ rw e (ground arith, h)
  | inr e ↦ rw e (digits-Plain f (n / 10) _ (omega arith, h))
]

lead-Plain : (c : ℕ) → Plain c → lead c ≡ some (0, 0x80, 0xBF)
unfolding lead
lead-Plain c h = ground arith

scan-Plain : (s rest : Bytes) → All Plain s → valid_string (s ++ rest) ≡ valid_string rest
unfolding valid_string
scan-Plain [] rest h = refl
scan-Plain (c ∷ s) rest (hc, h) = rw (lead-Plain c hc, scan_utf8) (scan-Plain s rest h)

control-Plain : (s rest : Bytes) → All Plain s → has_control (s ++ rest) ≡ has_control rest
unfolding has_control is_control
control-Plain [] rest h = refl
control-Plain (c ∷ s) rest (hc, h) = ground (arith, control-Plain s rest h)

-- What counts as a failure worth ranking.
abbrev pub IsFailure : ℕ → Bool → Type 0
IsFailure status asset =
    (400 ≤ status)
    × (status ≢ 401)
    × (status ≢ 403)
    × (status ≢ 499)
    × ((status ≢ 404) ⊎ (asset ≡ true))

take-ne-nil : (s : Bytes) (n : ℕ) → 0 < n → s ≢ [] → take n s ≢ []
take-ne-nil [] n p ne e = ne refl
take-ne-nil (c ∷ s) zero p ne e = absurd (omega arith)
take-ne-nil (c ∷ s) (suc n) p ne e = cc

append-ne-nil : (s : Bytes) (c : ℕ) (t : Bytes) → s ++ c ∷ t ≢ []
append-ne-nil [] c t e = cc
append-ne-nil (d ∷ s) c t e = cc

positive-length : (s : Bytes) → s ≢ [] → 0 < length s
positive-length [] ne = absurd (ne refl)
positive-length (c ∷ s) ne = omega arith

clamp-ne-nil :
    (s : Bytes) → s ≢ [] → valid_string s ≡ true → has_control s ≡ false → clamp_item s ≢ []
clamp-ne-nil s ne v c e =
    let (n, cut, size) = clamp_item_keeps s v c in
    take-ne-nil s n (omega (arith, positive-length s ne, size)) ne (sym cut ∙ e)

itoa-Plain : (n : ℕ) → All Plain (itoa n)
unfolding itoa
itoa-Plain n = digits-Plain (suc n) n [] tt

row-ne-nil :
    (status : ℕ) (path : Bytes)
    → valid_string path ≡ true
    → has_control path ≡ false
    → clamp_item (itoa status ++ b' ' ∷ path) ≢ []
row-ne-nil status path v c =
    clamp-ne-nil _ (append-ne-nil (itoa status) b' ' path)
      (scan-Plain (itoa status) (b' ' ∷ path) (itoa-Plain status)
        ∙ scan-Plain (b' ' ∷ []) path (omega arith)
        ∙ v)
      (control-Plain (itoa status) (b' ' ∷ path) (itoa-Plain status)
        ∙ control-Plain (b' ' ∷ []) path (omega arith)
        ∙ c)

is_empty-ne : (s : Bytes) → s ≢ [] → is_empty s ≡ false
unfolding is_empty
is_empty-ne [] ne = absurd (ne refl)
is_empty-ne (c ∷ s) ne = refl

-- The two early returns of `failingRow`.
abbrev skips : ℕ → Bool → Bool
skips status asset = (ltb status 400 || routine_status status) || (status == 404 && not asset)

failing_row-skips :
    (status : ℕ) (path : Bytes) (asset : Bool)
    → path ≢ []
    → failing_row status path asset
      ≡ (if skips status asset then [] else clamp_item (itoa status ++ b' ' ∷ path))
unfolding failing_row
failing_row-skips status path asset ne = ground (arith, is_empty-ne path ne)

skips_lem : (status : ℕ) (asset : Bool) → (skips status asset ≡ false) ↔ IsFailure status asset
unfolding routine_status
skips_lem status asset = (
  (λ h. (ground arith, ground arith, ground arith, ground arith, ground arith)),
  (λ h. ground arith),
)

-- For a page that the product accepts as a row, there is a row exactly when the status is an error
-- other than 401, 403 and 499, and a 404 only for a file that a page loads.
pub failing_row_iff :
    (status : ℕ) (path : Bytes) (asset : Bool)
    → path ≢ []
    → valid_string path ≡ true
    → has_control path ≡ false
    → (failing_row status path asset ≢ []) ↔ IsFailure status asset
failing_row_iff status path asset ne v c =
    rw (failing_row-skips status path asset ne) (elim (Bool-cases (skips status asset)) [
      | inl e ↦ ((λ h. absurd (h (rw e))), (λ h. cc (e, (skips_lem status asset).1 h)))
      | inr e ↦ ((λ h. (skips_lem status asset).0 e), (λ h. rw e (row-ne-nil status path v c)))
    ])
