-- ===== src/Nginx/TopLists/Site/Host.antt =====
-- A row of the referrers list is a host alone.
use prostometrics_agent.Base.{
  ℕ, ◌<◌, true, false, [], ◌∷◌, ◌≡◌, ◌⊎◌, inl, inr, refl, Option, none, some, arith, Bytes,
  Bool-cases, ◌==◌, All, All-take, Lacks, codes,
}
use prostometrics_agent.Nginx.Item.Clamp.{IsItem, clamp_item-All, clamp_item-IsItem}
use prostometrics_agent.Nginx.TopLists.Site.{
  keep_bracket, drop_user, drop_port, authority, first_is_host, site_name, referrer_site,
  drop_scheme,
}
use prostometrics_agent.Text.Case.{Lowering, is_letter}
use prostometrics_agent.Text.Search.{
  before_index, index, index_any, is_one_of, index_byte, last_index_byte, has_prefix,
}
use prostometrics_agent.Text.Search.Parts.{trim_prefix-All, trim_suffix-All, fails→lacks}
use prostometrics_agent.Text.Search.Positions.{
  before_index-Fails, after_index-Fails, before_index-All, after_index-All,
}

-- No path, query, fragment or user name.
abbrev pub HostOnly : Bytes → Type 0
HostOnly s = Lacks b'/' s × Lacks b'?' s × Lacks b'#' s × Lacks b'@' s

module _ (b : ℕ) (bs : Bytes) where
  one_of_Lacks :
      (s : Bytes) → is_one_of bs b ≡ true → All (λ c. is_one_of bs c ≡ false) s → Lacks b s
  one_of_Lacks [] h k = tt
  one_of_Lacks (c ∷ s) h k = ((λ e. cc (k.0, h, e)), one_of_Lacks s h k.1)

authority-HostOnly : (raw : Bytes) → HostOnly (authority raw)
unfolding authority drop_user
authority-HostOnly raw =
    let value = drop_scheme (index raw (codes "://")) raw in
    let host = before_index (index_any value (codes "/?#")) value in
    let clean : All (λ c. is_one_of (codes "/?#") c ≡ false) host =
      unfold index_any in before_index-Fails (is_one_of (codes "/?#")) value in
    let user = last_index_byte host b'@' in
    (
      after_index-All _ 1 user host
          (one_of_Lacks b'/' (codes "/?#") host (unfold is_one_of in refl) clean),
      after_index-All _ 1 user host
          (one_of_Lacks b'?' (codes "/?#") host (unfold is_one_of in refl) clean),
      after_index-All _ 1 user host
          (one_of_Lacks b'#' (codes "/?#") host (unfold is_one_of in refl) clean),
      fails→lacks b'@' _ (unfold last_index_byte in after_index-Fails (λ c. c == b'@') host),
    )

module _ (P : ℕ → Type 0) where
  keep_bracket-All : (o : Option ℕ) (s : Bytes) → All P s → All P (keep_bracket o s)
  unfolding keep_bracket
  keep_bracket-All none s h = h
  keep_bracket-All (some i) s h = All-take P _ s h

  drop_port-All : (s : Bytes) → All P s → All P (drop_port s)
  unfolding drop_port
  drop_port-All s h = elim (Bool-cases (has_prefix s (b'[' ∷ []))) [
    | inl e ↦ rw e (keep_bracket-All (index_byte s b']') s h)
    | inr e ↦ rw e (before_index-All P (last_index_byte s b':') s h)
  ]

module _ (l : Lowering) where
  site-Lacks :
      (b : ℕ) (value : Bytes)
      → b < 0x80
      → is_letter b ≡ false
      → Lacks b value
      → Lacks b (site_name l (drop_port value))
  unfolding site_name
  site-Lacks b value small plain h =
      trim_prefix-All _ _ (codes "www.")
        (l.lower_lacks b _ small plain (trim_suffix-All _ _ (b'.' ∷ []) (drop_port-All _ value h)))

  site-HostOnly : (raw : Bytes) → HostOnly (site_name l (drop_port (authority raw)))
  unfolding is_letter
  site-HostOnly raw =
      let (a, b, c, d) = authority-HostOnly raw in
      (
        site-Lacks b'/' _ (omega arith) refl a,
        site-Lacks b'?' _ (omega arith) refl b,
        site-Lacks b'#' _ (omega arith) refl c,
        site-Lacks b'@' _ (omega arith) refl d,
      )

  -- Whatever stands in the referrer, what is reported of it has no path, no query, no fragment and
  -- no user name, and where it is not empty it is a name that the product accepts.
  pub referrer_site_lem :
      (raw : Bytes)
      → HostOnly (referrer_site l raw) × ((referrer_site l raw ≡ []) ⊎ IsItem (referrer_site l raw))
  unfolding referrer_site
  referrer_site_lem raw =
      elim (Bool-cases (first_is_host (site_name l (drop_port (authority raw))))) [
        | inr e ↦ rw e ((tt, tt, tt, tt), inl refl)
        | inl e ↦
            let (a, b, c, d) = site-HostOnly raw in
            rw e (
              (
                clamp_item-All _ _ a,
                clamp_item-All _ _ b,
                clamp_item-All _ _ c,
                clamp_item-All _ _ d,
              ),
              clamp_item-IsItem (site_name l (drop_port (authority raw))),
            )
      ]
