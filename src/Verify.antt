-- ===== src/Verify.antt =====
-- db_sanitizer/verify: the checks of a sanitized database against its source.
pub mod LookupCache
pub mod Mappings
pub mod Agreement
pub mod Aggregate
pub mod Checks
pub mod RowCounts
pub mod Connection
pub mod SchemaColumns
pub mod ForeignKeys
pub mod Keys
pub mod Configured
pub mod Nonintersection
pub mod Statistics
pub mod Report
pub mod Inputs
pub mod Runner
