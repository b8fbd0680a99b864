-- ===== src/Wrr/Behaviour.antt =====
-- What single operations of wrr.c do, on all their branches.
pub mod Pick
pub mod Throttle
pub mod Weights
pub mod Entity
