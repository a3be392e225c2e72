-- ===== src/Tests.antt =====
-- Runs of the model on small inputs, and the theorems at concrete inputs.
pub mod Samples
mod Histories
mod Leases
mod Archives
mod Retention
mod Faults
mod Workers
mod Dashboards
mod Progress
mod Commands
mod Exports
mod Demonstration
mod Pools
