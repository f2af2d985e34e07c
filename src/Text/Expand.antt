-- ===== src/Text/Expand.antt =====
-- `os.Expand`.
use prostometrics_agent.Base.{
  ℕ, zero, suc, Bool, ◌&&◌, ◌||◌, [], ◌∷◌, ◌++◌, Option, none, some, Bytes, codes, if◌then◌else◌,
  ◌==◌, ◌===◌, leb, ltb, length, take, get_or,
}
use prostometrics_agent.Text.Search.{index_byte, is_one_of}

unfoldable pub is_alpha_num : ℕ → Bool
is_alpha_num c =
    c == b'_'
    || (leb b'0' c && leb c b'9')
    || (leb b'a' c && leb c b'z')
    || (leb b'A' c && leb c b'Z')

unfoldable pub is_shell_special_var : ℕ → Bool
unfolding is_one_of
is_shell_special_var c = is_one_of (codes "*#$@!?-0123456789") c

unfoldable pub count_alpha_num : Bytes → ℕ
count_alpha_num [] = 0
count_alpha_num (c ∷ s) = let rest = suc (count_alpha_num s) in if is_alpha_num c then rest else 0

-- The name up to the closing brace, and the bytes that are passed over, for a text behind `${`.
abbrev pub braced : Bytes → Option ℕ → Bytes × ℕ
braced s none = ([], 1)
braced s (some zero) = ([], 2)
braced s (some (suc i)) = (take (suc i) s, suc (suc (suc i)))

abbrev pub in_braces : Bytes → Bytes × ℕ
in_braces s =
    if ltb 1 (length s) && is_shell_special_var (get_or s 0 0) && get_or s 1 0 == b'}'
    then (take 1 s, 3)
    else braced s (index_byte s b'}')

-- The name that begins a text, and the bytes of it; the text is not empty.
unfoldable pub get_shell_name : Bytes → Bytes × ℕ
unfolding is_shell_special_var count_alpha_num
get_shell_name [] = ([], 0)
get_shell_name (c ∷ s) =
    if c == b'{'
    then in_braces s
    else if is_shell_special_var c
    then (c ∷ [], 1)
    else (take (count_alpha_num (c ∷ s)) (c ∷ s), count_alpha_num (c ∷ s))

abbrev pub replacement : (Bytes → Bytes) → Bytes × ℕ → Bytes
replacement mapping (name, w) =
    if name === [] then (if w == 0 then codes "$" else []) else mapping name

-- The number counts the bytes left of a reference that is being passed over.
unfoldable pub expand_from : (Bytes → Bytes) → ℕ → Bytes → Bytes
expand_from mapping k [] = []
expand_from mapping (suc k) (c ∷ s) = expand_from mapping k s
expand_from mapping zero (c ∷ s) =
    let plain = c ∷ expand_from mapping 0 s in
    let reference = get_shell_name s in
    let expanded = replacement mapping reference ++ expand_from mapping reference.1 s in
    if c == b'$' && ltb 0 (length s) then expanded else plain

unfoldable pub expand : (Bytes → Bytes) → Bytes → Bytes
unfolding expand_from
expand mapping s = expand_from mapping 0 s
