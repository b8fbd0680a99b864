-- ===== src/Bandwidth.antt =====
-- The admission of real-time bandwidth: core.c (walk_tg_tree_from, to_ratio, tg_rt_schedulable and
-- what follows it).
pub mod Walk
pub mod Admission
pub mod Tree
pub mod Limits
pub mod Checked
