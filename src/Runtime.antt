-- ===== src/Runtime.antt =====
-- src/runtime.rs: the operations of RuntimeService on the task table.
pub mod Dispatch
pub mod Held
pub mod Capacity
pub mod Cycle
pub mod Within
pub mod Examples
pub mod Service
pub mod Kill
pub mod Admission
pub mod Stop
pub mod Stopping
mod KillExamples
pub mod Classify
pub mod Watch
pub mod Shim
pub mod Ending
pub mod Signals
pub mod Returns
pub mod ShimExamples
pub mod Recovery
pub mod Reached
pub mod Recovered
pub mod Restarted
pub mod Sorted
pub mod Final
pub mod Turns
pub mod Gc
pub mod Shares
pub mod Quota
pub mod QuotaCycle
pub mod QuotaWithin
mod QuotaExamples
pub mod TenantQuota
pub mod QuotaText
pub mod Child
pub mod Launch
pub mod Launched
pub mod Outcome
pub mod Started
pub mod Failing
pub mod Leftover
pub mod Environment
pub mod Requested
mod LaunchExamples
pub mod Resources
pub mod TenantViews
pub mod Settings
pub mod Reads
pub mod Usage
