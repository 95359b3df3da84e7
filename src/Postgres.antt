-- ===== src/Postgres.antt =====
-- db_sanitizer/postgres: what is read from the source database.
pub mod Collector
