-- ===== src/Wrr.antt =====
-- The WRR scheduling class, patch/kernel/sched/wrr.c: the definitions, and below them what they
-- guarantee.
pub mod Weight
pub mod Queue
pub mod Class
pub mod Invariant
pub mod RoundRobin
pub mod Behaviour
