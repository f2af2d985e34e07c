-- ===== src/Text/Space.antt =====
-- `strings.TrimSpace` and `strings.Fields`. White space is Unicode's: the six ASCII bytes, and the
-- UTF-8 encodings of U+0085, U+00A0, U+1680, U+2000 to U+200A, U+2028, U+2029, U+202F, U+205F and
-- U+3000. No byte of a longer rune begins one of these, so a test at each byte decides.
pub mod Contents
pub mod Solid
pub mod Words
use prostometrics_agent.Base.{
  ℕ, zero, suc, ◌-◌, Bool, true, false, ◌&&◌, ◌||◌, List, [], ◌∷◌, ◌++◌, ◌≡◌, refl, reverse, leb,
  ◌==◌, if◌then◌else◌, Bytes, codes,
}

unfoldable pub is_ascii_space : ℕ → Bool
is_ascii_space c = (leb 9 c && leb c 13) || c == 32

unfoldable pub is_wide_space : ℕ → ℕ → ℕ → Bool
is_wide_space c d e =
    (c == 0xE1 && d == 0x9A && e == 0x80)
    || (c == 0xE2
        && d == 0x80
        && ((leb 0x80 e && leb e 0x8A) || e == 0xA8 || e == 0xA9 || e == 0xAF))
    || (c == 0xE2 && d == 0x81 && e == 0x9F)
    || (c == 0xE3 && d == 0x80 && e == 0x80)

unfoldable pub is_pair_space : ℕ → ℕ → Bool
is_pair_space c d = c == 0xC2 && (d == 0x85 || d == 0xA0)

-- The width in bytes of the white space at the head of a text, 0 if there is none.
unfoldable pub space_width : Bytes → ℕ
unfolding is_ascii_space is_wide_space is_pair_space
space_width [] = 0
space_width (c ∷ []) = if is_ascii_space c then 1 else 0
space_width (c ∷ d ∷ []) = if is_ascii_space c then 1 else if is_pair_space c d then 2 else 0
space_width (c ∷ d ∷ e ∷ s) =
    if is_ascii_space c
    then 1
    else if is_pair_space c d
    then 2
    else if is_wide_space c d e
    then 3
    else 0

-- The same at the end of a text, which is given backwards.
unfoldable pub space_width_back : Bytes → ℕ
unfolding is_ascii_space is_wide_space is_pair_space
space_width_back [] = 0
space_width_back (c ∷ []) = if is_ascii_space c then 1 else 0
space_width_back (d ∷ c ∷ []) = if is_ascii_space d then 1 else if is_pair_space c d then 2 else 0
space_width_back (e ∷ d ∷ c ∷ s) =
    if is_ascii_space e
    then 1
    else if is_pair_space d e
    then 2
    else if is_wide_space c d e
    then 3
    else 0

-- The number counts the bytes left of a white space that is being passed over.
unfoldable pub trim_with : (Bytes → ℕ) → ℕ → Bytes → Bytes
trim_with width k [] = []
trim_with width (suc k) (c ∷ s) = trim_with width k s
trim_with width zero (c ∷ s) =
    let w = width (c ∷ s) in let rest = trim_with width (w - 1) s in if w == 0 then c ∷ s else rest

unfoldable pub trim_space : Bytes → Bytes
unfolding trim_with space_width space_width_back
trim_space s = reverse (trim_with space_width_back 0 (reverse (trim_with space_width 0 s)))

abbrev pub flush : Bytes → List Bytes
flush [] = []
flush (c ∷ cur) = (c ∷ cur) ∷ []

unfoldable pub fields_from : ℕ → Bytes → Bytes → List Bytes
unfolding space_width
fields_from k cur [] = flush cur
fields_from (suc k) cur (c ∷ s) = fields_from k cur s
fields_from zero cur (c ∷ s) =
    let w = space_width (c ∷ s) in
    let more = fields_from 0 (cur ++ c ∷ []) s in
    let next = flush cur ++ fields_from (w - 1) [] s in if w == 0 then more else next

unfoldable pub fields : Bytes → List Bytes
unfolding fields_from
fields s = fields_from 0 [] s
