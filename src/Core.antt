-- ===== src/Core.antt =====
-- internal/collectors/core: the metrics of the host itself. The lines of the files under /proc are
-- given.
pub mod Counters
pub mod Disk
pub mod Cpu
pub mod Net
pub mod Memory
pub mod Fs
pub mod Kernel
pub mod Pressure
pub mod Pulse
