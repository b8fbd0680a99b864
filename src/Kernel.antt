-- ===== src/Kernel.antt =====
-- The state of the scheduler, the kernel around it, and its constants.
pub mod RealTime
pub mod Types
pub mod External
pub mod Constants
pub mod Links
