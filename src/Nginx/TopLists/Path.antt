-- ===== src/Nginx/TopLists/Path.antt =====
-- internal/collectors/nginx/toplists.go: `normalizePath`.
pub mod Rows
pub mod Shape
use mathlib.Core.Option
use prostometrics_agent.Base.{
  ℕ, ◌+◌, Bool, true, false, List, [], ◌∷◌, ◌≡◌, refl, Option, none, some, map, Bytes, codes,
  if◌then◌else◌, ltb, length, drop, ◌>>=◌,
}
use prostometrics_agent.Nginx.Item.{
  clamp_item, has_control, valid_string, back_to_rune, lead, is_control,
}
use prostometrics_agent.Nginx.TopLists.Segments.{
  is_identifier_segment, is_all_digits, is_all_hex, is_dashed_uuid, is_empty, all_bytes, is_digit,
  is_hex_digit, uuid_from,
}
use prostometrics_agent.Text.Search.{
  before_index, index_any, index_byte, index, has_prefix, split, join, trim_suffix,
}

abbrev pub id_placeholder : Bytes
id_placeholder = codes ":id"

abbrev pub slash : Bytes
slash = b'/' ∷ []

-- The target up to its query or fragment.
unfoldable pub strip_query : Bytes → Bytes
strip_query target = before_index (index_any target (codes "?#")) target

-- What follows the host, in a target that names a whole URL. The slices are those of the source.
unfoldable pub path_of_url : Bytes → Option Bytes
path_of_url target = do
  i ← index target (codes "://")
  j ← index_byte (drop (i + 3) target) b'/'
  some (drop (i + 3 + j) target)

unfoldable pub page_path : Bytes → Option Bytes
page_path target = if has_prefix target slash then some target else path_of_url target

unfoldable pub collapse_segment : Bytes → Bytes
collapse_segment segment = if is_identifier_segment segment then id_placeholder else segment

unfoldable pub collapse : Bytes → Bytes
collapse target = join (map collapse_segment (split target b'/')) b'/'

-- `if len(path) > 1 { path = strings.TrimSuffix(path, "/") }`
unfoldable pub trim_slash : Bytes → Bytes
trim_slash path = if ltb 1 (length path) then trim_suffix path slash else path

unfoldable pub finish_path : Option Bytes → Bytes
finish_path none = []
finish_path (some target) = clamp_item (trim_slash (collapse target))

unfoldable pub normalize_path : Bytes → Bytes
normalize_path target = finish_path (page_path (strip_query target))
