-- ===== src/Rt.antt =====
-- The real-time class, patch/kernel/sched/rt.c, on one processor with group scheduling.
pub mod Memory
pub mod Array
pub mod Entity
pub mod Time
pub mod Class
pub mod Frames
pub mod Laws
pub mod Invariant
