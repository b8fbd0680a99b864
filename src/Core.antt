-- ===== src/Core.antt =====
-- The common part of the scheduler that WRR is embedded in, patch/kernel/sched/core.c, and what it
-- guarantees of WRR tasks.
pub mod Prio
pub mod Classes
pub mod Frames
pub mod Sound
pub mod Off
pub mod Policy
pub mod Fork
pub mod Wake
pub mod Switch
pub mod Nice
pub mod Syscalls
pub mod Live
pub mod Ready
pub mod Waiters
pub mod Groups
pub mod Answers
pub mod Order
pub mod Children
pub mod Rounds
