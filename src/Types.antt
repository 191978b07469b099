-- ===== src/Types.antt =====
-- src/types.rs: the data of the HTTP API and of the task table, one module for each group of types.
pub mod Status
pub mod Execution
pub mod Control
pub mod Sandbox
pub mod Limits
pub mod Plan
pub mod Capability
pub mod Request
pub mod Views
pub mod Validity
pub mod Submission
mod Examples
