-- ===== src/Scenarios.antt =====
-- The theorems at concrete inputs, and runs of the definitions.
mod Transfer
mod Peers
mod Routes
mod Pipes
