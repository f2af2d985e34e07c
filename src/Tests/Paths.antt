-- ===== src/Tests/Paths.antt =====
-- Runs of `normalizePath` and `referrerSite` on inputs of toplists_test.go.
use prostometrics_agent.Base.{◌≡◌, refl, codes}
use prostometrics_agent.Nginx.TopLists.Path.{normalize_path}
use prostometrics_agent.Nginx.TopLists.Site.{referrer_site}
use prostometrics_agent.Text.Case.{ascii_lowering}

normalize_path_orders : normalize_path (codes "/orders/9002/?page=2") ≡ codes "/orders/:id"
unfolding prostometrics_agent.Nginx.TopLists.Path.normalize_path
    prostometrics_agent.Nginx.TopLists.Path.strip_query prostometrics_agent.Text.Search.before_index
    prostometrics_agent.Text.Search.index_any prostometrics_agent.Nginx.TopLists.Path.page_path
    prostometrics_agent.Text.Search.has_prefix prostometrics_agent.Nginx.TopLists.Path.finish_path
    prostometrics_agent.Nginx.TopLists.Path.collapse prostometrics_agent.Text.Search.split
    prostometrics_agent.Text.Search.join prostometrics_agent.Nginx.TopLists.Path.collapse_segment
    prostometrics_agent.Nginx.TopLists.Segments.is_identifier_segment
    prostometrics_agent.Nginx.TopLists.Segments.is_all_digits
    prostometrics_agent.Nginx.TopLists.Segments.is_all_hex
    prostometrics_agent.Nginx.TopLists.Segments.is_dashed_uuid
    prostometrics_agent.Nginx.TopLists.Segments.is_empty
    prostometrics_agent.Nginx.TopLists.Segments.all_bytes
    prostometrics_agent.Nginx.TopLists.Segments.is_digit
    prostometrics_agent.Nginx.TopLists.Path.trim_slash prostometrics_agent.Text.Search.trim_suffix
    prostometrics_agent.Nginx.Item.clamp_item prostometrics_agent.Nginx.Item.has_control
    prostometrics_agent.Nginx.Item.valid_string prostometrics_agent.Nginx.Item.lead
normalize_path_orders = refl

normalize_path_url : normalize_path (codes "http://host/a") ≡ codes "/a"
unfolding prostometrics_agent.Nginx.TopLists.Path.normalize_path
    prostometrics_agent.Nginx.TopLists.Path.strip_query prostometrics_agent.Text.Search.before_index
    prostometrics_agent.Text.Search.index_any prostometrics_agent.Nginx.TopLists.Path.page_path
    prostometrics_agent.Nginx.TopLists.Path.path_of_url prostometrics_agent.Text.Search.index
    prostometrics_agent.Text.Search.index_byte prostometrics_agent.Text.Search.has_prefix
    prostometrics_agent.Nginx.TopLists.Path.finish_path
    prostometrics_agent.Nginx.TopLists.Path.collapse prostometrics_agent.Text.Search.split
    prostometrics_agent.Text.Search.join prostometrics_agent.Nginx.TopLists.Path.collapse_segment
    prostometrics_agent.Nginx.TopLists.Segments.is_identifier_segment
    prostometrics_agent.Nginx.TopLists.Segments.is_all_digits
    prostometrics_agent.Nginx.TopLists.Segments.is_all_hex
    prostometrics_agent.Nginx.TopLists.Segments.is_dashed_uuid
    prostometrics_agent.Nginx.TopLists.Segments.is_empty
    prostometrics_agent.Nginx.TopLists.Segments.all_bytes
    prostometrics_agent.Nginx.TopLists.Segments.is_digit
    prostometrics_agent.Nginx.TopLists.Segments.is_hex_digit
    prostometrics_agent.Nginx.TopLists.Path.trim_slash prostometrics_agent.Text.Search.trim_suffix
    prostometrics_agent.Nginx.Item.clamp_item prostometrics_agent.Nginx.Item.has_control
    prostometrics_agent.Nginx.Item.valid_string prostometrics_agent.Nginx.Item.lead
normalize_path_url = refl

site_example :
    referrer_site ascii_lowering (codes "https://u@WWW.Example.com.:8443/p?q=1")
    ≡ codes "example.com"
unfolding prostometrics_agent.Nginx.TopLists.Site.referrer_site
    prostometrics_agent.Nginx.TopLists.Site.site_name
    prostometrics_agent.Nginx.TopLists.Site.first_is_host
    prostometrics_agent.Nginx.TopLists.Site.is_host_start
    prostometrics_agent.Nginx.TopLists.Site.drop_port
    prostometrics_agent.Nginx.TopLists.Site.authority
    prostometrics_agent.Nginx.TopLists.Site.drop_user
    prostometrics_agent.Nginx.TopLists.Site.drop_scheme prostometrics_agent.Text.Search.index
    prostometrics_agent.Text.Search.index_any prostometrics_agent.Text.Search.before_index
    prostometrics_agent.Text.Search.after_index prostometrics_agent.Text.Search.last_index_byte
    prostometrics_agent.Text.Search.has_prefix prostometrics_agent.Text.Search.trim_prefix
    prostometrics_agent.Text.Search.trim_suffix prostometrics_agent.Text.Case.lower_byte
    prostometrics_agent.Nginx.Item.clamp_item prostometrics_agent.Nginx.Item.has_control
    prostometrics_agent.Nginx.Item.valid_string prostometrics_agent.Nginx.Item.lead
site_example = refl
