-- ===== src/Nginx/TopLists.antt =====
-- internal/collectors/nginx/toplists.go: which rows of the three ranked lists a request belongs in.
pub mod Segments
pub mod Path
pub mod Site
pub mod Rows
