-- ===== src/Tests/TopLists.antt =====
-- Examples for internal/collectors/nginx/toplists.go.
use prostometrics_agent.Base.{
  ℕ, ◌≤◌, ◌<◌, [], ◌≡◌, ◌≢◌, ◌⊎◌, inl, inr, refl, none, codes, length, take, All, arith,
}
use prostometrics_agent.Base.Integers.{ℤ}
use prostometrics_agent.Nginx.Entry.{AccessLogEntry}
use prostometrics_agent.Nginx.Item.{clamp_item, max_item_bytes, has_control, valid_string}
use prostometrics_agent.Nginx.Item.Clamp.{IsItem, clamp_item_safe, clamp_item_keeps}
use prostometrics_agent.Nginx.TopLists.Path.{normalize_path}
use prostometrics_agent.Nginx.TopLists.Path.Rows.{IsPathByte, SamePage, normalize_path-SamePage}
use prostometrics_agent.Text.Search.{split}
use prostometrics_agent.Nginx.TopLists.Rows.{record_ranked_rows}
use prostometrics_agent.Nginx.TopLists.Rows.Privacy.{Sent, record_ranked_rows_lem}
use prostometrics_agent.Nginx.TopLists.Segments.{IsDigit}
use prostometrics_agent.Text.Case.{ascii_lowering}

clamp_item_safe_example :
    (clamp_item (codes "/a b") ≡ [])
    ⊎ (IsItem (clamp_item (codes "/a b"))
        × (n : ℕ) × (clamp_item (codes "/a b") ≡ take n (codes "/a b")))
clamp_item_safe_example = clamp_item_safe (codes "/a b")

clamp_item_keeps_example :
    (n : ℕ) × (clamp_item (codes "/cart") ≡ take n (codes "/cart"))
    × (((n ≡ 5) × (5 ≤ max_item_bytes)) ⊎ ((max_item_bytes < 5) × (253 ≤ n) × (n ≤ max_item_bytes)))
unfolding valid_string prostometrics_agent.Nginx.Item.lead has_control
clamp_item_keeps_example = clamp_item_keeps (codes "/cart") refl refl

first_path : All IsPathByte (codes "orders/42")
first_path = (
  (omega arith, omega arith),
  (
    (omega arith, omega arith),
    (
      (omega arith, omega arith),
      (
        (omega arith, omega arith),
        (
          (omega arith, omega arith),
          (
            (omega arith, omega arith),
            (
              (omega arith, omega arith),
              ((omega arith, omega arith), ((omega arith, omega arith), tt)),
            ),
          ),
        ),
      ),
    ),
  ),
)

second_path : All IsPathByte (codes "orders/77")
second_path = (
  (omega arith, omega arith),
  (
    (omega arith, omega arith),
    (
      (omega arith, omega arith),
      (
        (omega arith, omega arith),
        (
          (omega arith, omega arith),
          (
            (omega arith, omega arith),
            (
              (omega arith, omega arith),
              ((omega arith, omega arith), ((omega arith, omega arith), tt)),
            ),
          ),
        ),
      ),
    ),
  ),
)

abbrev is_number : IsDigit b'4' × IsDigit b'2' × IsDigit b'7'
is_number = ((omega arith, omega arith), (omega arith, omega arith), (omega arith, omega arith))

same_page : SamePage (split (codes "/orders/42") b'/') (split (codes "/orders/77") b'/')
unfolding prostometrics_agent.Text.Search.split_from split
same_page = (
  inl refl,
  (
    inl refl,
    (
      inr (
        inl ((λ e. absurd (cc)), inl (is_number.0, (is_number.1, tt))),
        inl ((λ e. absurd (cc)), inl (is_number.2, (is_number.2, tt))),
      ),
      tt,
    ),
  ),
)

normalize_path-SamePage_example :
    normalize_path (codes "/orders/42?x=1") ≡ normalize_path (codes "/orders/77")
normalize_path-SamePage_example =
    normalize_path-SamePage (codes "orders/42") (codes "orders/77") (codes "?x=1") [] first_path
      second_path (inr (codes "x=1", inl refl)) (inl refl) same_page

abbrev visit : AccessLogEntry ℤ
visit = record {
  status_class = codes "5xx";
  status = 500;
  request_time = none;
  upstream_time = none;
  remote_addr = codes "10.0.0.1";
  target = codes "/pay/42";
  referrer = codes "https://shop.example/";
}

record_ranked_rows_lem_example :
    All (Sent (codes "10.0.0.1")) (record_ranked_rows ascii_lowering (codes "me.example") visit)
    × (length (record_ranked_rows ascii_lowering (codes "me.example") visit) ≤ 3)
    × ((codes "10.0.0.1" ≢ [])
        ⊎ (record_ranked_rows ascii_lowering (codes "me.example") visit ≡ []))
record_ranked_rows_lem_example = record_ranked_rows_lem ascii_lowering (codes "me.example") visit
