-- ===== src/Nginx/AccessLog.antt =====
-- internal/collectors/nginx/accesslog.go: the access log collector.
pub mod Line
pub mod Reservoir
pub mod Tail
pub mod Collect
pub mod New
