-- ===== src/Verify/Runner/Severity.antt =====
-- The checks behind an outcome of the runner are all required.
use db_sanitizer.Base.{ℕ, ◌≡◌, List, [], arith, inl, inr}
use db_sanitizer.Errors.{ok, Result-cases}
use db_sanitizer.Mapping.HmacKey.{Bytes, Crypto}
use db_sanitizer.Mapping.Normalization.{Unicode}
use db_sanitizer.Mapping.Registry.{Registry}
use db_sanitizer.Policy.Models.{Groups}
use db_sanitizer.Policy.Schema.{SchemaSnapshot, table_refs}
use db_sanitizer.Base.Sort.{sort}
use db_sanitizer.Base.Text.{text_ltb}
use db_sanitizer.Verify.Checks.{CheckResult, ColumnStats, required}
use db_sanitizer.Verify.Connection.{Connection, count_query, unvalidated_foreign_keys, sum_results}
use db_sanitizer.Verify.RowCounts.{
  RowCount, TableStats, union, compare_tables, check_table_row_counts,
}
use db_sanitizer.Verify.Statistics.{
  ColumnCounts, Tallies, configured_items, configured_columns, tally_columns,
  check_configured_column_statistics,
}
use db_sanitizer.Verify.ForeignKeys.{foreign_key_orphan_count, check_foreign_keys}
use db_sanitizer.Verify.Keys.{
  KeyConstraint, key_counts, key_value_mismatches, check_primary_unique_constraints,
}
use db_sanitizer.Verify.Configured.{no_metrics, check_items, check_configured_mappings}
use db_sanitizer.Verify.Nonintersection.{
  GroupHmacStats, check_groups, check_source_target_hmac_nonintersection,
}

module _ (source target : Connection) (a b : SchemaSnapshot) where
  pub check_table_row_counts-required :
      (x y : RowCount) (stats : List TableStats) (result : CheckResult)
      → check_table_row_counts x y a b ≡ ok (stats, result)
      → result.severity ≡ required
  unfolding check_table_row_counts
  check_table_row_counts-required x y stats result h =
      elim (Result-cases
        (compare_tables x y (table_refs a) (table_refs b) (union (table_refs a) (table_refs b)))) [
          | inr (e, p) ↦ absurd (ground arith)
          | inl (rows, p) ↦ ground arith
        ]

  pub check_configured_column_statistics-required :
      (x y : ColumnCounts) (groups : Groups) (stats : List ColumnStats) (result : CheckResult)
      → check_configured_column_statistics x y a b groups ≡ ok (stats, result)
      → result.severity ≡ required
  unfolding check_configured_column_statistics
  check_configured_column_statistics-required x y groups stats result h =
      let none_yet : Tallies = record {
        stats = [];
        unavailable_columns = 0;
        null_mismatches = 0;
        distinct_mismatches = 0;
      } in
      elim (Result-cases (tally_columns x y a b (configured_columns groups) none_yet)) [
        | inr (e, p) ↦ absurd (ground arith)
        | inl (found, p) ↦ ground arith
      ]

  pub check_foreign_keys-required :
      (result : CheckResult)
      → check_foreign_keys target a b ≡ ok result
      → result.severity ≡ required
  unfolding check_foreign_keys
  check_foreign_keys-required result h =
      elim (Result-cases (count_query target unvalidated_foreign_keys)) [
        | inr (e, p) ↦ absurd (ground arith)
        | inl (n, p) ↦
            elim (Result-cases (sum_results (foreign_key_orphan_count target) b.foreign_keys)) [
              | inr (e, q) ↦ absurd (ground arith)
              | inl (m, q) ↦ ground arith
            ]
      ]

  module _ (groups : Groups) (xs ys : List KeyConstraint) (fetch_size : ℕ) where
    pub check_primary_unique_constraints-required :
        (result : CheckResult)
        → check_primary_unique_constraints source target groups xs ys fetch_size ≡ ok result
        → result.severity ≡ required
    unfolding check_primary_unique_constraints
    check_primary_unique_constraints-required result h =
        elim (Result-cases (key_counts target ys)) [
          | inr (e, p) ↦ absurd (ground arith)
          | inl (n, p) ↦
              elim (Result-cases
                (sum_results (key_value_mismatches source target groups fetch_size ys) xs)) [
                  | inr (e, q) ↦ absurd (ground arith)
                  | inl (m, q) ↦ ground arith
                ]
        ]

    module _ (u : Unicode) (crypto : Crypto) (secret : Bytes) (r t : Registry) where
      pub check_configured_mappings-required :
          (result : CheckResult)
          → check_configured_mappings u crypto secret source target groups a b xs ys fetch_size r
            ≡ (ok result, t)
          → result.severity ≡ required
      unfolding check_configured_mappings
      check_configured_mappings-required result h =
          let run =
            check_items u crypto secret source target groups a b xs ys fetch_size
              (configured_items groups)
              (record { metrics = no_metrics; lookup_caches = []; registry = r }) in
          elim (Result-cases run.0) [
            | inr (e, p) ↦ absurd (ground arith)
            | inl (done, p) ↦ ground arith
          ]

      pub check_source_target_hmac_nonintersection-required :
          (stats : List GroupHmacStats × CheckResult)
          → check_source_target_hmac_nonintersection u crypto secret target b fetch_size groups r
            ≡ (ok stats, t)
          → stats.1.severity ≡ required
      unfolding check_source_target_hmac_nonintersection
      check_source_target_hmac_nonintersection-required stats h =
          let block =
            check_groups u crypto secret target b fetch_size (sort (λ a b. text_ltb a.0 b.0) groups)
              r in
          elim (Result-cases block.0) [
            | inr (e, p) ↦ absurd (ground arith)
            | inl (found, p) ↦ ground arith
          ]
