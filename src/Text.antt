-- ===== src/Text.antt =====
-- What the agent uses of Go's `strings`, `strconv` and `unicode/utf8` packages, over lists of bytes.
pub mod Space
pub mod Search
pub mod Number
pub mod Case
pub mod Paths
pub mod Address
pub mod Expand
