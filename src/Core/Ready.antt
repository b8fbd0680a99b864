-- ===== src/Core/Ready.antt =====
-- That no queued WRR task is without slice, so that no tick stops the kernel: what each entry of
-- core.c keeps of the WRR entities.
pub mod State
pub mod Queue
pub mod Calls
pub mod Tick
pub mod Wakes
pub mod Switches
pub mod Changes
pub mod Machine
