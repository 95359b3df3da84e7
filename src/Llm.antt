-- ===== src/Llm.antt =====
-- db_sanitizer/llm: synthetic replacements from a provider, checked before they are assigned.
pub mod Models
pub mod Generator
