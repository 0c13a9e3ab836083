-- ===== src/Effects.antt =====
-- Use cases and workers run in a world that they share with other processes. The environment `env`
-- says, for the n-th call that leaves the process, what the others did to the database before it,
-- whether the call fails, and what the storage, the transcoder and the clock answer.
-- A use case returns its result and the world that it leaves, also when it returns an error.
pub mod Ports
pub mod Database
pub mod Transactions
pub mod Keeps
pub mod Answers
pub mod Frames
