-- ===== src/Mapping.antt =====
-- db_sanitizer/mapping: the keys of the mapping registry and the registry itself.
pub mod Normalization
pub mod HmacKey
pub mod Tables
pub mod Registry
