-- ===== src/Tests.antt =====
-- The theorems at concrete inputs, and tests of the definitions on inputs of the repository's own.
mod Runner
mod Nginx
mod Paths
mod Text
mod TopLists
mod Collectors
mod Settings
mod Databases
mod Entry
