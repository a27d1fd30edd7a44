-- ===== src/Tests.antt =====
-- Runs of the bots on small clusters, and the theorems applied to them.
pub mod Data
pub mod Nodes
pub mod Queues
pub mod Devices
pub mod Timers
pub mod Managers
pub mod Budgets
pub mod Starts
pub mod Notices
pub mod Evidence
pub mod Texts
pub mod Leases
