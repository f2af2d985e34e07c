-- ===== src/Nginx/TopLists/Rows.antt =====
-- internal/collectors/nginx/toplists.go: `rowsFor`, `recordRankedRows`, `isAssetPath`, `failingRow`
-- and `visitorToken`, which is FNV-1a of `hash/fnv`.
pub mod Failing
pub mod Privacy
use Prim.Native.Nat.{bit_xor}
use prostometrics_agent.Base.{
  ℕ, ◌*◌, ◌%◌, ◌^◌, Bool, true, false, not, ◌&&◌, ◌||◌, List, [], ◌∷◌, ◌++◌, ◌≡◌, refl, Option,
  none, some, Bytes, codes, ◌===◌, elem_bytes, if◌then◌else◌, ltb, ◌==◌, drop, ◌+◌,
}
use prostometrics_agent.Nginx.Entry.{AccessLogEntry}
use prostometrics_agent.Nginx.Item.{clamp_item}
use prostometrics_agent.Nginx.TopLists.Path.{normalize_path}
use prostometrics_agent.Nginx.TopLists.Segments.{is_empty}
use prostometrics_agent.Nginx.TopLists.Site.{referrer_site}
use prostometrics_agent.Text.Case.{Lowering}
use prostometrics_agent.Text.Number.{itoa}
use prostometrics_agent.Text.Search.{after_index, last_index_byte, has_prefix}

pub record RankedRows : Type 0 where
  pub page : Bytes
  pub failing : Bytes
  pub referrer : Bytes

-- One call of `prostometrics.CountTop`.
pub data TopMetric : Type 0 where
  pages error_pages referrers : TopMetric

pub record TopEvent : Type 0 where
  pub visitor : ℕ
  pub metric : TopMetric
  pub item : Bytes

abbrev pub asset_extensions : List Bytes
asset_extensions =
    codes "js"
    ∷ codes "mjs"
    ∷ codes "cjs"
    ∷ codes "css"
    ∷ codes "map"
    ∷ codes "png"
    ∷ codes "jpg"
    ∷ codes "jpeg"
    ∷ codes "gif"
    ∷ codes "svg"
    ∷ codes "webp"
    ∷ codes "avif"
    ∷ codes "ico"
    ∷ codes "bmp"
    ∷ codes "woff"
    ∷ codes "woff2"
    ∷ codes "ttf"
    ∷ codes "otf"
    ∷ codes "eot"
    ∷ codes "mp4"
    ∷ codes "webm"
    ∷ codes "mp3"
    ∷ codes "ogg"
    ∷ codes "wav"
    ∷ codes "m4a"
    ∷ codes "mov"
    ∷ []

abbrev pub asset_prefixes : List Bytes
asset_prefixes =
    codes "/_next/"
    ∷ codes "/_nuxt/"
    ∷ codes "/_astro/"
    ∷ codes "/static/"
    ∷ codes "/assets/"
    ∷ codes "/build/"
    ∷ codes "/dist/"
    ∷ []

unfoldable pub has_any_prefix : Bytes → List Bytes → Bool
has_any_prefix path [] = false
has_any_prefix path (p ∷ ps) = if has_prefix path p then true else has_any_prefix path ps

unfoldable pub routine_status : ℕ → Bool
routine_status status = status == 401 || status == 403 || status == 499

unfoldable pub failing_row : ℕ → Bytes → Bool → Bytes
failing_row status path asset =
    if ltb status 400 || is_empty path || routine_status status
    then []
    else if status == 404 && not asset
    then []
    else clamp_item (itoa status ++ b' ' ∷ path)

unfoldable pub fnv_from : ℕ → Bytes → ℕ
fnv_from h [] = h
fnv_from h (c ∷ s) = fnv_from ((bit_xor h c * 1099511628211) % 2 ^ 64) s

unfoldable pub visitor_token : Bytes → ℕ
visitor_token addr = fnv_from 14695981039346656037 addr

unfoldable pub count_top : ℕ → TopMetric → Bytes → List TopEvent
count_top visitor metric [] = []
count_top visitor metric (c ∷ item) =
    record { visitor = visitor; metric = metric; item = c ∷ item } ∷ []

module _ (l : Lowering) where
  open l use {lower}

  unfoldable pub has_asset_extension : Option ℕ → Bytes → Bool
  has_asset_extension none name = false
  has_asset_extension (some dot) name = elem_bytes (lower (drop (dot + 1) name)) asset_extensions

  unfoldable pub is_asset_path : Bytes → Bool
  is_asset_path path =
      let name = after_index 1 (last_index_byte path b'/') path in
      if has_any_prefix path asset_prefixes
      then true
      else has_asset_extension (last_index_byte name b'.') name

  -- The referring site of a page that is no asset, unless it is the site itself.
  unfoldable pub foreign_site : Bytes → Bytes → Bytes
  foreign_site site_host referrer =
      let site = referrer_site l referrer in
      if not (is_empty site) && not (site === site_host) then site else []

  unfoldable pub rows_for : {F : Type 0} → Bytes → AccessLogEntry F → RankedRows
  rows_for site_host entry =
      let path = normalize_path entry.target in
      let asset = not (is_empty path) && is_asset_path path in
      let failing = failing_row entry.status path asset in
      if is_empty path || asset
      then record { page = []; failing = failing; referrer = [] }
      else record {
        page = path;
        failing = failing;
        referrer = foreign_site site_host entry.referrer;
      }

  unfoldable pub record_ranked_rows : {F : Type 0} → Bytes → AccessLogEntry F → List TopEvent
  record_ranked_rows site_host entry =
      let rows = rows_for site_host entry in
      let visitor = visitor_token entry.remote_addr in
      if is_empty entry.remote_addr
      then []
      else count_top visitor pages rows.page
        ++ (count_top visitor error_pages rows.failing ++ count_top visitor referrers rows.referrer)
