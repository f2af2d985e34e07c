-- ===== src/Nginx/AccessLog/New.antt =====
-- internal/collectors/nginx/accesslog.go and accesslog_probe.go: the defaults of `NewAccessLogProbe`
-- and `NewAccessLogCollector`.
use prostometrics_agent.Base.{ℕ, Bool, [], Bytes, codes, if◌then◌else◌, ◌===◌, ◌==◌}
use prostometrics_agent.Base.Integers.{ℤ, pos, negsuc}
use prostometrics_agent.Nginx.AccessLog.Collect.{Options}
use prostometrics_agent.Nginx.TopLists.Site.{referrer_site}
use prostometrics_agent.Text.Case.{Lowering}
use prostometrics_agent.Text.Space.{trim_space}

abbrev pub default_access_log_path : Bytes
default_access_log_path = codes "/var/log/nginx/access.log"

abbrev pub default_time_samples : ℕ
default_time_samples = 20

-- `NewAccessLogProbe` and `NewAccessLogCollector` keep a path that is not blank as it is.
abbrev pub log_file_path : Bytes → Bytes
log_file_path path = if trim_space path === [] then default_access_log_path else path

abbrev pub max_samples_of : ℤ → ℕ
max_samples_of (negsuc n) = default_time_samples
max_samples_of (pos n) = if n == 0 then default_time_samples else n

-- The path that is followed, and how the lines are counted.
unfoldable pub new_access_log_collector : Lowering → Bytes → ℤ → Bool → Bytes → Bytes × Options
new_access_log_collector lw path samples top_lists site_host = (
  log_file_path path,
  record {
    max_samples = max_samples_of samples;
    top_lists = top_lists;
    site_host = referrer_site lw (trim_space site_host);
  },
)
