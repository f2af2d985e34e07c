-- ===== src/Nginx/TopLists/Site.antt =====
-- internal/collectors/nginx/toplists.go: `referrerSite` and `isHostStart`.
pub mod Host
use prostometrics_agent.Base.{
  ℕ, ◌+◌, Bool, true, false, ◌||◌, ◌&&◌, [], ◌∷◌, ◌≡◌, refl, Option, none, some, Bytes, codes,
  if◌then◌else◌, leb, ◌==◌, take, drop,
}
use prostometrics_agent.Nginx.Item.{clamp_item, has_control, valid_string, lead, is_control}
use prostometrics_agent.Text.Case.{Lowering, ascii_lowering, lower_byte}
use prostometrics_agent.Text.Search.{
  before_index, after_index, index, index_any, index_byte, last_index_byte, has_prefix, trim_prefix,
  trim_suffix,
}

unfoldable pub is_host_start : ℕ → Bool
is_host_start b =
    b == b'[' || leb 0x80 b || (leb b'a' b && leb b b'z') || (leb b'0' b && leb b b'9')

-- `if i := strings.Index(value, "://"); i >= 0 { value = value[i+3:] } else { … }`
unfoldable pub drop_scheme : Option ℕ → Bytes → Bytes
drop_scheme none value = trim_prefix value (codes "//")
drop_scheme (some i) value = drop (i + 3) value

unfoldable pub drop_user : Bytes → Bytes
drop_user value = after_index 1 (last_index_byte value b'@') value

-- Up to and with the closing bracket of an IPv6 host.
unfoldable pub keep_bracket : Option ℕ → Bytes → Bytes
keep_bracket none value = value
keep_bracket (some i) value = take (i + 1) value

unfoldable pub drop_port : Bytes → Bytes
drop_port value =
    if has_prefix value (b'[' ∷ [])
    then keep_bracket (index_byte value b']') value
    else before_index (last_index_byte value b':') value

unfoldable pub authority : Bytes → Bytes
authority raw =
    let value = drop_scheme (index raw (codes "://")) raw in
    drop_user (before_index (index_any value (codes "/?#")) value)

unfoldable pub first_is_host : Bytes → Bool
first_is_host [] = false
first_is_host (b ∷ value) = is_host_start b

module _ (l : Lowering) where
  open l use {lower}

  unfoldable pub site_name : Bytes → Bytes
  site_name value = trim_prefix (lower (trim_suffix value (b'.' ∷ []))) (codes "www.")

  unfoldable pub referrer_site : Bytes → Bytes
  referrer_site raw =
      let value = site_name (drop_port (authority raw)) in
      if first_is_host value then clamp_item value else []
