-- ===== src/Tests.antt =====
-- Runs of the model on concrete inputs, and the theorems at inputs that meet their hypotheses.
mod Samples
mod Queue
mod Policies
mod Calls
mod Loads
mod RealTime
mod RtArrays
mod Bandwidth
mod Rounds
