-- ===== src/Wrr/RoundRobin.antt =====
-- What WRR promises, without pointers and counters: a line of turns. The first task runs until its
-- slice is used up, and then goes to the end of the line with a full slice.
pub mod Turns
pub mod View
pub mod Refines
pub mod Ticks
pub mod GivesWay
