-- ===== src/Text/Paths.antt =====
-- `path.Base`, `path.Ext`, and `filepath.Join` on a system whose separator is a slash.
use prostometrics_agent.Base.{
  ℕ, Bool, true, false, ◌||◌, List, [], ◌∷◌, Option, none, some, Bytes, codes, if◌then◌else◌, ◌==◌,
  ◌===◌, drop, get_or, reverse,
}
use prostometrics_agent.Text.Search.{
  has_prefix, trim_right_of, last_index_byte, last_index_where, after_index, split, join,
}

-- The last element of a path that has no slash at its end.
abbrev last_element : Bytes → Bytes
last_element s =
    let last = after_index 1 (last_index_byte s b'/') s in if last === [] then codes "/" else last

unfoldable pub base : Bytes → Bytes
base path =
    let last = last_element (trim_right_of (codes "/") path) in
    if path === [] then codes "." else last

abbrev from_dot : Bytes → Option ℕ → Bytes
from_dot path none = []
from_dot path (some i) = if get_or path i 0 == b'.' then drop i path else []

-- From the last dot of the last element on.
unfoldable pub ext : Bytes → Bytes
ext path = from_dot path (last_index_where (λ c. c == b'.' || c == b'/') path)

-- The elements that are kept, the last first.
abbrev step_back : Bool → List Bytes → List Bytes
step_back rooted [] = if rooted then [] else codes ".." ∷ []
step_back rooted (p ∷ ps) = if p === codes ".." then codes ".." ∷ p ∷ ps else ps

abbrev add_element : Bool → Bytes → List Bytes → List Bytes
add_element rooted e kept =
    if (e === []) || (e === codes ".")
    then kept
    else if e === codes ".."
    then step_back rooted kept
    else e ∷ kept

unfoldable pub clean_elements : Bool → List Bytes → List Bytes → List Bytes
clean_elements rooted [] kept = kept
clean_elements rooted (e ∷ es) kept = clean_elements rooted es (add_element rooted e kept)

abbrev spelled : Bool → Bytes → Bytes
spelled true s = b'/' ∷ s
spelled false s = if s === [] then codes "." else s

unfoldable pub clean : Bytes → Bytes
unfolding clean_elements
clean path =
    let rooted = has_prefix path (codes "/") in
    spelled rooted (join (reverse (clean_elements rooted (split path b'/') [])) b'/')

-- `Join`: empty elements before the first other one are passed over.
abbrev not_clean_empty : Bytes → Bytes
not_clean_empty s = if s === [] then [] else clean s

unfoldable pub skip_empty : List Bytes → List Bytes
skip_empty [] = []
skip_empty (e ∷ es) = if e === [] then skip_empty es else e ∷ es

unfoldable pub join_path : List Bytes → Bytes
unfolding clean skip_empty
join_path elements = not_clean_empty (join (skip_empty elements) b'/')
