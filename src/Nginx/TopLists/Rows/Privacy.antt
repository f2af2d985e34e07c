-- ===== src/Nginx/TopLists/Rows/Privacy.antt =====
-- What one request can add to the three lists.
use Prim.Native.Nat.{bit_xor}
use prostometrics_agent.Base.{
  ℕ, ◌*◌, ◌%◌, ◌^◌, ◌<◌, ◌≤◌, Bool, true, false, not, ◌||◌, ◌&&◌, [], ◌∷◌, ◌≡◌, ◌≢◌, ◌⊎◌, inl, inr,
  refl, arith, Bytes, All, All-append, Bool-cases, if◌then◌else◌, length, length-append, ◌===◌,
  ===_iff,
}
use prostometrics_agent.Nginx.Entry.{AccessLogEntry}
use prostometrics_agent.Nginx.Item.Clamp.{IsItem, clamp_item-IsItem}
use prostometrics_agent.Nginx.TopLists.Path.{normalize_path}
use prostometrics_agent.Nginx.TopLists.Path.Shape.{normalize_path_lem}
use prostometrics_agent.Nginx.TopLists.Rows.{
  TopMetric, pages, error_pages, referrers, TopEvent, failing_row, fnv_from, visitor_token,
  is_asset_path, foreign_site, rows_for, count_top, record_ranked_rows,
}
use prostometrics_agent.Nginx.TopLists.Segments.{is_empty}
use prostometrics_agent.Nginx.TopLists.Site.{referrer_site}
use prostometrics_agent.Nginx.TopLists.Site.Host.{referrer_site_lem}
use prostometrics_agent.Text.Case.{Lowering}

fnv_from-lt : (h : ℕ) (s : Bytes) → h < 2 ^ 64 → fnv_from h s < 2 ^ 64
unfolding fnv_from
fnv_from-lt h [] k = k
fnv_from-lt h (c ∷ s) k = fnv_from-lt ((bit_xor h c * 1099511628211) % 2 ^ 64) s (omega arith)

visitor_token-lt : (addr : Bytes) → visitor_token addr < 2 ^ 64
unfolding visitor_token
visitor_token-lt addr = fnv_from-lt _ addr (omega arith)

-- A row's name, where there is one, is what the product accepts.
abbrev pub IsRow : Bytes → Type 0
IsRow s = (s ≡ []) ⊎ IsItem s

if-IsRow : (b : Bool) (x y : Bytes) → IsRow x → IsRow y → IsRow (if b then x else y)
if-IsRow true x y hx hy = hx
if-IsRow false x y hx hy = hy

failing_row-IsRow :
    (status : ℕ) (path : Bytes) (asset : Bool) → IsRow (failing_row status path asset)
unfolding failing_row
failing_row-IsRow status path asset =
    if-IsRow _ _ _ (inl refl) (if-IsRow _ _ _ (inl refl) (clamp_item-IsItem _))

is_empty-false : (s : Bytes) → is_empty s ≡ false → s ≢ []
unfolding is_empty
is_empty-false s h e = cc (rw e at h)

abbrev pub Sent : Bytes → TopEvent → Type 0
Sent addr e =
    (e.visitor ≡ visitor_token addr) × (e.visitor < 2 ^ 64) × (e.item ≢ []) × IsItem e.item

module _ (l : Lowering) (site_host : Bytes) where
  foreign_site-IsRow : (referrer : Bytes) → IsRow (foreign_site l site_host referrer)
  unfolding foreign_site
  foreign_site-IsRow referrer = if-IsRow _ _ _ (referrer_site_lem l referrer).1 (inl refl)

  foreign_site-ne :
      (referrer : Bytes)
      → (foreign_site l site_host referrer ≡ []) ⊎ (foreign_site l site_host referrer ≢ site_host)
  unfolding foreign_site
  foreign_site-ne referrer =
      let site = referrer_site l referrer in
      elim (Bool-cases (not (is_empty site) && not (site === site_host))) [
        | inr e ↦ rw e (inl refl)
        | inl e ↦ rw e (inr (λ same. cc ((===_iff site site_host).1 same, other site e)))
      ]
    where
      other :
          (site : Bytes)
          → (not (is_empty site) && not (site === site_host)) ≡ true
          → (site === site_host) ≡ false
      other site e = ground arith

  module _ {F : Type 0} (entry : AccessLogEntry F) where
    abbrev ranked_page : Bytes
    ranked_page = normalize_path entry.target

    abbrev skipped : Bool
    skipped = is_empty ranked_page || (not (is_empty ranked_page) && is_asset_path l ranked_page)

    rows_for-page : (rows_for l site_host entry).page ≡ (if skipped then [] else ranked_page)
    unfolding rows_for
    rows_for-page = ground arith

    rows_for-referrer :
        (rows_for l site_host entry).referrer
        ≡ (if skipped then [] else foreign_site l site_host entry.referrer)
    unfolding rows_for
    rows_for-referrer = ground arith

    rows_for-failing : IsRow (rows_for l site_host entry).failing
    unfolding rows_for
    rows_for-failing = elim (Bool-cases skipped) [
      | inl e ↦ rw e (failing_row-IsRow _ _ _)
      | inr e ↦ rw e (failing_row-IsRow _ _ _)
    ]

    -- A page that a list ranks is the normalised target and no asset, an asset is neither a page nor
    -- a referral, and the site's own host is never reported as referring to it.
    pub rows_for_lem :
        (((rows_for l site_host entry).page ≡ [])
          ⊎ (((rows_for l site_host entry).page ≡ normalize_path entry.target)
              × (is_asset_path l (rows_for l site_host entry).page ≡ false)))
        × (((rows_for l site_host entry).referrer ≡ [])
            ⊎ (((rows_for l site_host entry).referrer ≢ site_host)
                × ((rows_for l site_host entry).page ≢ [])))
    rows_for_lem =
        rw (rows_for-page, rows_for-referrer)
          (elim (Bool-cases skipped) [
            | inl e ↦ rw e (inl refl, inl refl)
            | inr e ↦ rw e (
              inr (refl, ground arith),
              elim (foreign_site-ne entry.referrer) [
                | inl none_left ↦ inl none_left
                | inr foreign ↦ inr (foreign, is_empty-false ranked_page (ground arith))
              ],
            )
          ])

    rows_for-IsRow :
        IsRow (rows_for l site_host entry).page × IsRow (rows_for l site_host entry).referrer
    rows_for-IsRow = (
      rw rows_for-page (if-IsRow _ _ _ (inl refl) (normalize_path_lem entry.target).1),
      rw rows_for-referrer (if-IsRow _ _ _ (inl refl) (foreign_site-IsRow entry.referrer)),
    )

count_top-Sent :
    (addr item : Bytes) (metric : TopMetric)
    → IsRow item
    → All (Sent addr) (count_top (visitor_token addr) metric item)
      × (length (count_top (visitor_token addr) metric item) ≤ 1)
unfolding count_top
count_top-Sent addr [] metric h = (tt, omega arith)
count_top-Sent addr (c ∷ item) metric (inl e) = cc
count_top-Sent addr (c ∷ item) metric (inr good) =
    (((refl, visitor_token-lt addr, (λ e. cc), good), tt), omega arith)

-- A request adds at most three rows, each a non-empty name that the product accepts under a visitor
-- that is the 64-bit hash of the address; a request without an address adds none.
pub record_ranked_rows_lem :
    (l : Lowering) (site_host : Bytes) {F : Type 0} (entry : AccessLogEntry F)
    → All (Sent entry.remote_addr) (record_ranked_rows l site_host entry)
      × (length (record_ranked_rows l site_host entry) ≤ 3)
      × ((entry.remote_addr ≢ []) ⊎ (record_ranked_rows l site_host entry ≡ []))
unfolding record_ranked_rows
record_ranked_rows_lem l site_host entry = elim (Bool-cases (is_empty entry.remote_addr)) [
  | inl e ↦ rw e (tt, omega arith, inr refl)
  | inr e ↦
      let rows = rows_for l site_host entry in
      let rest = rows_for-IsRow l site_host entry in
      let a = count_top-Sent entry.remote_addr rows.page pages rest.0 in
      let b =
        count_top-Sent entry.remote_addr rows.failing error_pages
          (rows_for-failing l site_host entry) in
      let c = count_top-Sent entry.remote_addr rows.referrer referrers rest.1 in
      rw e (
        All-append _ _ _ a.0 (All-append _ _ _ b.0 c.0),
        omega (arith, a.1, b.1, c.1, length-append {0}),
        inl (is_empty-false entry.remote_addr e),
      )
]
