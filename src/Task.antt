-- ===== src/Task.antt =====
-- crates/domain/src/task: tasks, their types, and the next state of a task that has run.
pub mod Status
pub mod Types
pub mod Metadata
pub mod Update
pub mod Scheduler
