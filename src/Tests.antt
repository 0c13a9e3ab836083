-- ===== src/Tests.antt =====
-- The theorems at concrete inputs.
mod Samples
pub mod Tiers
pub mod RedisRuns
pub mod Requests
pub mod LoopRuns
pub mod Starts
pub mod Graphs
pub mod Deletions
pub mod TaskRuns
pub mod Databases
pub mod UseCaseRuns
pub mod Statuses
pub mod Failures
