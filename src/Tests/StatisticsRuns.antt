-- ===== src/Tests/StatisticsRuns.antt =====
-- Runs of the statistics of the verifier.
use db_sanitizer.Base.{◌≡◌, all, refl, true, false, none, List, [], ◌∷◌, map}
use db_sanitizer.Base.Text.{text_eq, text_eq_instance, codes}
use db_sanitizer.Errors.{ok}
use db_sanitizer.Base.Sort.{sort, sort_insert}
use db_sanitizer.Verify.Checks.{CheckResult, is_pass, ColumnStats, pass, required}
use db_sanitizer.Policy.Names.{is_identifier}
use db_sanitizer.Policy.Models.{Groups}
use db_sanitizer.Policy.Schema.{SchemaSnapshot, column_for}
use db_sanitizer.Verify.Statistics.{
  ColumnCounts, items_of, configured_items, configured_columns, new_column_stats, tally_column,
  tally_columns, check_configured_column_statistics,
}
use db_sanitizer.Verify.Statistics.Equal.{
  row_column, keeps_counts, check_configured_column_statistics_iff,
}
use db_sanitizer.Tests.Samples.{people, name_column, name_group}
use db_sanitizer.Base.{◌&&◌}
use db_sanitizer.Base.Eq.{elem, pair_eq}
use db_sanitizer.Policy.Schema.{table_refs, tables_of}
use db_sanitizer.Verify.RowCounts as RowCounts
use db_sanitizer.Verify.RowCounts.Verdict.{same_rows, check_table_row_counts_iff}

abbrev groups : Groups
groups = (people, name_group) ∷ []

abbrev snapshot : SchemaSnapshot
snapshot = record {
  columns =
      record {
        ref = name_column;
        postgres_type = codes "text";
        character_maximum_length = none;
        is_primary_key = false;
        is_unique = false;
      }
      ∷ [];
  foreign_keys = [];
}

abbrev counts : ColumnCounts
counts ref = ok (1, 5)

abbrev count_rows : List ColumnStats
count_rows =
    record {
      group_id = people;
      ref = name_column;
      source_nulls = 1;
      target_nulls = 1;
      source_distinct = 5;
      target_distinct = 5;
      available = true;
    }
    ∷ []

abbrev counts_checked : CheckResult
counts_checked = record {
  id = codes "configured_column_statistics";
  severity = required;
  status = pass;
}

statistics :
    check_configured_column_statistics counts counts snapshot snapshot groups
    ≡ ok (count_rows, counts_checked)
unfolding check_configured_column_statistics tally_columns configured_columns items_of
    configured_items sort sort_insert tally_column new_column_stats is_identifier column_for text_eq
statistics = refl

check_configured_column_statistics_iff_example :
    (map row_column count_rows ≡ configured_columns groups)
    × (is_pass counts_checked
        ≡ all (keeps_counts counts counts snapshot snapshot) (configured_columns groups))
check_configured_column_statistics_iff_example =
    check_configured_column_statistics_iff counts counts snapshot snapshot groups count_rows
      counts_checked statistics

abbrev table_rows : RowCounts.RowCount
table_rows table = ok 6

abbrev row_stats : List RowCounts.TableStats
row_stats =
    record {
      schema_name = name_column.schema_name;
      table = name_column.table;
      source_rows = 6;
      target_rows = 6;
      row_count_equal = true;
    }
    ∷ []

abbrev rows_checked : CheckResult
rows_checked = record { id = codes "table_row_counts"; severity = required; status = pass }

row_counts :
    RowCounts.check_table_row_counts table_rows table_rows snapshot snapshot
    ≡ ok (row_stats, rows_checked)
unfolding RowCounts.check_table_row_counts RowCounts.compare_tables RowCounts.compare_table
    RowCounts.new_table_stats is_identifier sort sort_insert table_refs tables_of text_eq
row_counts = refl

check_table_row_counts_iff_example : is_pass rows_checked ≡ (
    all
      (λ table. elem table (table_refs snapshot) && same_rows (table_rows table) (table_rows table))
      (table_refs snapshot)
    && all (λ table. elem table (table_refs snapshot)) (table_refs snapshot))
check_table_row_counts_iff_example =
    check_table_row_counts_iff table_rows table_rows snapshot snapshot row_stats rows_checked
      row_counts
