-- ===== src/Rt/Invariant.antt =====
-- What holds of the priority arrays of rt.c between two operations, and that the operations on
-- entities keep it.
pub mod Bits
pub mod Arrays
pub mod Steps
pub mod Moves
pub mod Entities
pub mod Enqueued
pub mod Filled
pub mod Chains
pub mod Climb
pub mod Keeps
pub mod Picks
