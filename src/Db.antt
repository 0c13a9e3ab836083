-- ===== src/Db.antt =====
-- The Postgres database of migrations/001_init.sql, with the statements of
-- crates/infrastructure/src/postgres as functions of its two tables.
pub mod Tables
pub mod Videos
pub mod Tasks
