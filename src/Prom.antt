-- ===== src/Prom.antt =====
-- internal/collectors/prom: the metrics of an endpoint that speaks the Prometheus text format.
pub mod Labels
pub mod Exposition
pub mod Matching
pub mod Scrape
