-- ===== src/Text/Case.antt =====
-- `strings.ToLower`. Its mapping outside ASCII comes from the Unicode tables, so it is a parameter
-- with the two facts about ASCII that the agent relies on.
use prostometrics_agent.Base.{
  ℕ, ◌+◌, ◌<◌, Bool, false, Option, none, some, ◌===◌, ◌==◌, ◌&&◌, ◌||◌, [], ◌∷◌, ◌≡◌, refl, map,
  arith, leb, if◌then◌else◌, Bytes, All, Lacks,
}

unfoldable pub lower_byte : ℕ → ℕ
lower_byte c = if leb b'A' c && leb c b'Z' then c + 32 else c

unfoldable pub is_letter : ℕ → Bool
is_letter c = (leb b'A' c && leb c b'Z') || (leb b'a' c && leb c b'z')

-- Passes over one rune that folds to a lower-case ASCII letter: the letter in either case, the long s
-- (U+017F) for an s, and the Kelvin sign (U+212A) for a k.
abbrev strip_fold : ℕ → Bytes → Option Bytes
strip_fold t [] = none
strip_fold t (c ∷ []) = if lower_byte c == t then some [] else none
strip_fold t (c ∷ d ∷ []) =
    if lower_byte c == t
    then some (d ∷ [])
    else if t == b's' && c == 0xC5 && d == 0xBF
    then some []
    else none
strip_fold t (c ∷ d ∷ e ∷ s) =
    if lower_byte c == t
    then some (d ∷ e ∷ s)
    else if t == b's' && c == 0xC5 && d == 0xBF
    then some (e ∷ s)
    else if t == b'k' && c == 0xE2 && d == 0x84 && e == 0xAA
    then some s
    else none

-- `strings.EqualFold(s, t)` for a text `t` of lower-case ASCII.
unfoldable pub equal_fold : Bytes → Bytes → Bool
unfolding lower_byte ◌===◌
equal_fold s [] = s === []
equal_fold s (t ∷ ts) = elim (strip_fold t s) [ none ↦ false | some r ↦ equal_fold r ts ]

abbrev pub IsAscii : Bytes → Type 0
IsAscii = All (λ c. c < 0x80)

pub record Lowering : Type 0 where
  pub lower : Bytes → Bytes
  pub lower_ascii : (s : Bytes) → IsAscii s → lower s ≡ map lower_byte s
  -- Lower-casing may turn a rune into an ASCII letter, and into no other ASCII byte.
  pub lower_lacks :
      (b : ℕ) (s : Bytes) → b < 0x80 → is_letter b ≡ false → Lacks b s → Lacks b (lower s)

pub map-Lacks : (b : ℕ) (s : Bytes) → is_letter b ≡ false → Lacks b s → Lacks b (map lower_byte s)
unfolding is_letter lower_byte
map-Lacks b [] h l = tt
map-Lacks b (c ∷ s) h (l, ls) = (ground arith, map-Lacks b s h ls)

-- The mapping of ASCII alone.
abbrev pub ascii_lowering : Lowering
ascii_lowering = record {
  lower = map lower_byte;
  lower_ascii = λ s h. refl;
  lower_lacks = λ b s h k l. map-Lacks b s k l;
}
