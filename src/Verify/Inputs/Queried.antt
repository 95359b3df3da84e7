-- ===== src/Verify/Inputs/Queried.antt =====
-- What `query_checks` has run when it returns.
use db_sanitizer.Base.{ℕ, ◌≡◌, arith, inl, inr}
use db_sanitizer.Errors.{ok, Result-cases}
use db_sanitizer.Policy.Models.{Groups}
use db_sanitizer.Verify.Connection.{Connection, table_row_count, column_counts}
use db_sanitizer.Verify.RowCounts.{check_table_row_counts}
use db_sanitizer.Verify.Statistics.{check_configured_column_statistics}
use db_sanitizer.Verify.ForeignKeys.{check_foreign_keys}
use db_sanitizer.Verify.Keys.{check_primary_unique_constraints}
use db_sanitizer.Verify.Inputs.{Inputs, Findings, query_checks}

module _ (source target : Connection) (groups : Groups) (fetch_size : ℕ) where
  -- The answers behind the findings of the queries.
  pub record Queried (inputs : Inputs) (f : Findings) : Type 0 where
    pub tables-ok :
        check_table_row_counts
          (table_row_count source)
          (table_row_count target)
          inputs.source_schema
          inputs.target_schema
        ≡ ok (f.table_stats, f.tables)
    pub columns-ok :
        check_configured_column_statistics
          (column_counts source)
          (column_counts target)
          inputs.source_schema
          inputs.target_schema
          groups
        ≡ ok (f.column_stats, f.columns)
    pub foreign_keys-ok :
        check_foreign_keys target inputs.source_schema inputs.target_schema ≡ ok f.foreign_keys
    pub keys-ok :
        check_primary_unique_constraints source target groups inputs.source_constraints
          inputs.target_constraints fetch_size
        ≡ ok f.keys

  pub query_checks-Queried :
      (inputs : Inputs) (f : Findings)
      → query_checks source target groups fetch_size inputs ≡ ok f
      → Queried inputs f
  unfolding query_checks
  query_checks-Queried inputs f h =
      elim (Result-cases (
        check_table_row_counts (table_row_count source) (table_row_count target)
          inputs.source_schema inputs.target_schema)) [
            | inr (e, p) ↦ absurd (ground arith)
            | inl (x, p) ↦
                elim (Result-cases (
                  check_configured_column_statistics (column_counts source) (column_counts target)
                    inputs.source_schema inputs.target_schema groups)) [
                      | inr (e, q) ↦ absurd (ground arith)
                      | inl (y, q) ↦
                          elim (Result-cases
                            (check_foreign_keys target inputs.source_schema inputs.target_schema)) [
                              | inr (e, v) ↦ absurd (ground arith)
                              | inl (z, v) ↦
                                  elim (Result-cases (
                                    check_primary_unique_constraints source target groups
                                      inputs.source_constraints inputs.target_constraints
                                      fetch_size)) [
                                        | inr (e, w) ↦ absurd (ground arith)
                                        | inl (k, w) ↦ record {
                                          tables-ok = ground arith;
                                          columns-ok = ground arith;
                                          foreign_keys-ok = ground arith;
                                          keys-ok = ground arith;
                                        }
                                      ]
                            ]
                    ]
          ]
