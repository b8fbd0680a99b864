-- ===== src/Core/Live.antt =====
-- The whole scheduler of core.c and wrr.c in motion: what holds between any two of its entries.
pub mod State
pub mod Picks
pub mod Sleeps
pub mod Switches
pub mod Charges
pub mod Ticks
pub mod Changes
pub mod Nices
pub mod Moves
pub mod Machine
pub mod Wakes
pub mod Starts
