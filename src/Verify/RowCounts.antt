-- ===== src/Verify/RowCounts.antt =====
-- `check_table_row_counts` of db_sanitizer/verify/checks.py. The count query of a connection is an
-- argument: the number of rows of a table, or an error.
pub mod Verdict
use db_sanitizer.Base.{ℕ, Bool, not, ◌&&◌, List, [], ◌∷◌, ◌++◌, count, filter, ◌==◌, if◌then◌else◌}
use db_sanitizer.Base.Eq.{elem, pair_eq}
use db_sanitizer.Base.Sort.{sort}
use db_sanitizer.Base.Text.{Text, codes, text_eq_instance}
use db_sanitizer.Errors.{Result, ok, err, ◌>>=◌, ◌>>◌, raise_if, unexpected}
use db_sanitizer.Policy.Names.{is_identifier}
use db_sanitizer.Policy.Schema.{SchemaSnapshot, table_refs, table_ltb}
use db_sanitizer.Verify.Checks.{CheckResult, required, status_of}

pub record TableStats : Type 0 where
  pub schema_name : Text
  pub table : Text
  pub source_rows : ℕ
  pub target_rows : ℕ
  pub row_count_equal : Bool

-- `TableStats.__post_init__`: a `ValueError` for a name that is no identifier.
unfoldable pub new_table_stats : TableStats → Result TableStats
new_table_stats item =
    raise_if (not (is_identifier item.schema_name && is_identifier item.table)) unexpected
    >> ok item

-- `_table_row_count` on one connection.
abbrev pub RowCount : Type 0
RowCount = Text × Text → Result ℕ

-- `_table_row_count(connection, schema_name, table) if exists else 0`
abbrev pub count_if : Bool → RowCount → Text × Text → Result ℕ
count_if exists rows table = if exists then rows table else ok 0

-- `sorted(a | b)`
abbrev pub union : List (Text × Text) → List (Text × Text) → List (Text × Text)
union a b = sort table_ltb (a ++ filter (λ table. not (elem table a)) b)

module _ (source target : RowCount) (source_tables target_tables : List (Text × Text)) where
  unfoldable pub compare_table : Text × Text → Result TableStats
  compare_table table =
      let source_exists = elem table source_tables in
      let target_exists = elem table target_tables in
      count_if source_exists source table >>= λ source_rows.
      count_if target_exists target table >>= λ target_rows. new_table_stats (record {
        schema_name = table.0;
        table = table.1;
        source_rows = source_rows;
        target_rows = target_rows;
        row_count_equal = source_exists && target_exists && source_rows == target_rows;
      })

  unfoldable pub compare_tables : List (Text × Text) → Result (List TableStats)
  compare_tables [] = ok []
  compare_tables (table ∷ tables) =
      compare_table table >>= λ item. compare_tables tables >>= λ stats. ok (item ∷ stats)

-- `check_table_row_counts`
unfoldable pub check_table_row_counts :
    RowCount → RowCount → SchemaSnapshot → SchemaSnapshot → Result (List TableStats × CheckResult)
check_table_row_counts source target source_snapshot target_snapshot =
    let source_tables = table_refs source_snapshot in
    let target_tables = table_refs target_snapshot in
    compare_tables source target source_tables target_tables (union source_tables target_tables)
    >>= λ stats. ok (
      stats,
      record {
        id = codes "table_row_counts";
        severity = required;
        status = status_of (count (λ item. not item.row_count_equal) stats == 0);
      },
    )
