-- ===== src/Nginx/Item.antt =====
-- internal/collectors/nginx/toplists.go: `clampItem`, with Go's `utf8.ValidString` and
-- `utf8.RuneStart`.
pub mod Cut
pub mod Clamp
use prostometrics_agent.Base.{
  ℕ, zero, suc, Bool, true, false, not, ◌&&◌, ◌||◌, [], ◌∷◌, ◌≡◌, refl, Option, none, some,
  if◌then◌else◌, ltb, leb, ◌==◌, Bytes, length, take, get_or,
}

abbrev within : ℕ → ℕ → ℕ → Bool
within lo hi c = leb lo c && leb c hi

-- What the first byte of a rune tells: how many bytes follow, and the range of the next one.
unfoldable pub lead : ℕ → Option (ℕ × ℕ × ℕ)
lead c =
    if ltb c 0x80
    then some (0, 0x80, 0xBF)
    else if within 0xC2 0xDF c
    then some (1, 0x80, 0xBF)
    else if c == 0xE0
    then some (2, 0xA0, 0xBF)
    else if c == 0xED
    then some (2, 0x80, 0x9F)
    else if within 0xE1 0xEF c
    then some (2, 0x80, 0xBF)
    else if c == 0xF0
    then some (3, 0x90, 0xBF)
    else if within 0xF1 0xF3 c
    then some (3, 0x80, 0xBF)
    else if c == 0xF4
    then some (3, 0x80, 0x8F)
    else none

-- `left` bytes of a rune are still to come, the next one between `lo` and `hi`.
unfoldable pub scan_utf8 : ℕ → ℕ → ℕ → Bytes → Bool
scan_utf8 left lo hi [] = left == 0
scan_utf8 zero lo hi (c ∷ s) = elim (lead c) [
  | none ↦ false
  | some (left, lo', hi') ↦ scan_utf8 left lo' hi' s
]
scan_utf8 (suc left) lo hi (c ∷ s) = leb lo c && leb c hi && scan_utf8 left 0x80 0xBF s

unfoldable pub valid_string : Bytes → Bool
unfolding scan_utf8
valid_string s = scan_utf8 0 0x80 0xBF s

unfoldable pub rune_start : ℕ → Bool
rune_start b = not (leb 0x80 b && leb b 0xBF)

abbrev pub max_item_bytes : ℕ
max_item_bytes = 256

-- `for cut > 0 && !utf8.RuneStart(item[cut]) { cut-- }`
unfoldable pub back_to_rune : Bytes → ℕ → ℕ
unfolding rune_start
back_to_rune item zero = 0
back_to_rune item (suc cut) =
    let less = back_to_rune item cut in
    if rune_start (get_or item (suc cut) 0) then suc cut else less

unfoldable pub is_control : ℕ → Bool
is_control b = ltb b 0x20 || b == 0x7F

unfoldable pub has_control : Bytes → Bool
unfolding is_control
has_control [] = false
has_control (b ∷ s) = is_control b || has_control s

abbrev pub shorten : Bytes → Bytes
shorten item =
    if ltb max_item_bytes (length item) then take (back_to_rune item max_item_bytes) item else item

unfoldable pub clamp_item : Bytes → Bytes
clamp_item [] = []
clamp_item (c ∷ s) =
    let item = c ∷ s in
    if has_control item then [] else if valid_string (shorten item) then shorten item else []
