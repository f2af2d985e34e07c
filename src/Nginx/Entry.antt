-- ===== src/Nginx/Entry.antt =====
-- internal/collectors/nginx/accesslog.go: `accessLogEntry`, over the type of the float64 values, and
-- `AccessLogOptions` as they stand in `AccessLogCollector`.
use prostometrics_agent.Base.{ℕ, Bytes, Option}

pub record AccessLogEntry (F : Type 0) : Type 0 where
  pub status_class : Bytes
  pub status : ℕ
  -- The value is there when `hasRequestTime` and `hasUpstreamTime` are set.
  pub request_time : Option F
  pub upstream_time : Option F
  pub remote_addr : Bytes
  pub target : Bytes
  pub referrer : Bytes
