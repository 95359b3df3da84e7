-- ===== src/Policy.antt =====
-- db_sanitizer/policy: the contract of a policy file, and its checks.
pub mod Names
pub mod Models
pub mod Sections
pub mod Schema
pub mod Validator
