-- ===== src/Core/Policy.antt =====
-- Changes of policy: core.c (__setscheduler, __sched_setscheduler, sched_setscheduler,
-- sched_setscheduler_nocheck, rt_mutex_setprio, normalize_task).
pub mod Request
pub mod Change
pub mod Keeps
pub mod Sound
pub mod Checks
pub mod Callers
pub mod Weights
pub mod Joins
