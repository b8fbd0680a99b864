-- ===== src/Core/Rounds.antt =====
-- The timer's interrupt while WRR has the processor to itself: core.c (scheduler_tick, and
-- __schedule behind the interrupt if the running task was asked to give way).
pub mod Pass
pub mod Timer
