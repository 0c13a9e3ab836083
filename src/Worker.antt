-- ===== src/Worker.antt =====
-- crates/worker/src: the handlers of tasks and the loops that run them.
pub mod Handlers
pub mod Consumer
pub mod Loop
pub mod Periodic
pub mod Runs
pub mod Start
