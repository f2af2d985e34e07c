-- ===== src/Redis.antt =====
-- internal/collectors/redis: the protocol that the agent speaks with a server, and what it reports.
pub mod Wire
pub mod Info
pub mod Target
pub mod Collect
