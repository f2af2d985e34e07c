-- ===== src/Nginx.antt =====
-- internal/collectors/nginx: the status page, the access log and the ranked lists made from it.
pub mod Entry
pub mod Item
pub mod Status
pub mod TopLists
pub mod AccessLog
pub mod Endpoint
