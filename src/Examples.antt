-- ===== src/Examples.antt =====
-- The theorems at concrete inputs.
mod Sweeps
mod Nodes
mod Operators
mod Spawns
mod Watchers
mod Worlds
mod Files
mod Wakes
mod States
mod Writers
