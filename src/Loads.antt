-- ===== src/Loads.antt =====
-- The load averages of core.c: the global averages that /proc/loadavg shows, and those of the run
-- queue for each index of cpu_load.
pub mod Average
pub mod Sample
pub mod Cpu
pub mod Bounds
pub mod Powers
pub mod Approach
pub mod Count
pub mod Window
