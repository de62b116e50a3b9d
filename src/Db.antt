-- ===== src/Db.antt =====
-- gurt-db/src/lib.rs: connecting to the database.
pub mod Backoff
pub mod Connect
