-- ===== src/Config.antt =====
-- cmd/prostometrics-agent/config.go: how the parts of a decoded configuration are resolved.
pub mod Succeeds
pub mod Enabled
pub mod Instances
pub mod Workload
pub mod EnvFiles
pub mod Generic
pub mod Source
pub mod Runtime
pub mod Expand
