-- ===== src/Verify/Inputs.antt =====
-- db_sanitizer/verify/runner.py: the part of `verify_connections` before the registry is used. The
-- snapshots of both sides are inspected, as they are when the caller does not pass its own.
pub mod Queried
use db_sanitizer.Base.{ℕ, List}
use db_sanitizer.Errors.{Result, ok, ◌>>=◌}
use db_sanitizer.Policy.Models.{Groups}
use db_sanitizer.Policy.Schema.{SchemaSnapshot}
use db_sanitizer.Verify.Checks.{CheckResult, ColumnStats}
use db_sanitizer.Verify.Connection.{Connection, table_row_count, column_counts}
use db_sanitizer.Verify.RowCounts.{TableStats, check_table_row_counts}
use db_sanitizer.Verify.Statistics.{check_configured_column_statistics}
use db_sanitizer.Verify.ForeignKeys.{check_foreign_keys}
use db_sanitizer.Verify.Keys.{KeyConstraint, read_key_constraints, check_primary_unique_constraints}

-- What is read of both sides, and what the queries of the checks have found.
pub record Inputs : Type 0 where
  pub source_schema : SchemaSnapshot
  pub target_schema : SchemaSnapshot
  pub source_constraints : List KeyConstraint
  pub target_constraints : List KeyConstraint

pub record Findings : Type 0 where
  pub table_stats : List TableStats
  pub tables : CheckResult
  pub column_stats : List ColumnStats
  pub columns : CheckResult
  pub foreign_keys : CheckResult
  pub keys : CheckResult

module _ (source target : Connection) where
  -- What both sides hold, as `verify_connections` reads it.
  unfoldable pub read_inputs : Result Inputs
  read_inputs = source.inspected >>= λ source_schema. target.inspected >>= λ target_schema.
      read_key_constraints source >>= λ source_constraints.
      read_key_constraints target >>= λ target_constraints. ok (record {
        source_schema = source_schema;
        target_schema = target_schema;
        source_constraints = source_constraints;
        target_constraints = target_constraints;
      })

module _ (source target : Connection) (groups : Groups) (fetch_size : ℕ) where
  -- The checks that do not need the registry, but those on metadata alone.
  unfoldable pub query_checks : Inputs → Result Findings
  query_checks inputs =
      check_table_row_counts (table_row_count source) (table_row_count target) inputs.source_schema
        inputs.target_schema
      >>= λ tables.
          check_configured_column_statistics (column_counts source) (column_counts target)
            inputs.source_schema inputs.target_schema groups
          >>= λ columns.
              check_foreign_keys target inputs.source_schema inputs.target_schema
              >>= λ foreign_keys.
                  check_primary_unique_constraints source target groups inputs.source_constraints
                    inputs.target_constraints fetch_size
                  >>= λ keys. ok (record {
                    table_stats = tables.0;
                    tables = tables.1;
                    column_stats = columns.0;
                    columns = columns.1;
                    foreign_keys = foreign_keys;
                    keys = keys;
                  })
