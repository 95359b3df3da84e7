-- ===== src/Greenmask.antt =====
-- db_sanitizer/greenmask: the process that rewrites the values of a dump.
pub mod Mapper
pub mod Config
