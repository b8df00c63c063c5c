-- ===== src/Examples.antt =====
-- The theorems at concrete inputs.
pub mod World
pub mod Allocation
pub mod Pool
pub mod Sessions
pub mod Threads
pub mod Loading
pub mod Policy
pub mod Memory
pub mod Histories
