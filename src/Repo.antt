-- ===== src/Repo.antt =====
-- src/repo.rs: the task table and the event table. A write returns the new tables or an error; an
-- error rolls its transaction back, so that the tables stay as they were.
pub mod Rows
pub mod Codec
pub mod Columns
pub mod Writes
pub mod Finish
pub mod Queries
pub mod Touch
pub mod Effects
pub mod Consistent
pub mod History
pub mod Lifecycle
pub mod Totality
pub mod Missing
pub mod Examples
