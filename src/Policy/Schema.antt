-- ===== src/Policy/Schema.antt =====
-- The metadata of a PostgreSQL schema, of db_sanitizer/postgres/inspector.py. The catalog queries
-- are outside; their rows are the snapshot.
use db_sanitizer.Base.{
  ℕ, Bool, not, ◌&&◌, ◌||◌, Option, none, some, List, [], ◌∷◌, length, ◌==◌, if◌then◌else◌,
}
use db_sanitizer.Base.Eq.{elem, pair_eq}
use db_sanitizer.Base.Sort.{sort}
use db_sanitizer.Base.Text.{Text, codes, text_eq, text_ltb, text_eq_instance}
use db_sanitizer.Policy.Models.{ColumnRef, same_column}

pub record ColumnInfo : Type 0 where
  pub ref : ColumnRef
  pub postgres_type : Text
  pub character_maximum_length : Option ℕ
  pub is_primary_key : Bool
  pub is_unique : Bool

pub record ForeignKeyInfo : Type 0 where
  pub name : Text
  pub source_columns : List ColumnRef
  pub target_columns : List ColumnRef
  pub match_type : Text

-- Whether `ForeignKeyInfo.__post_init__` accepts it.
unfoldable pub is_valid_foreign_key : ForeignKeyInfo → Bool
is_valid_foreign_key f =
    (text_eq f.match_type (codes "SIMPLE") || text_eq f.match_type (codes "FULL"))
    && not (length f.source_columns == 0)
    && length f.source_columns == length f.target_columns

pub record SchemaSnapshot : Type 0 where
  pub columns : List ColumnInfo
  pub foreign_keys : List ForeignKeyInfo

unfoldable pub find_column : ColumnRef → List ColumnInfo → Option ColumnInfo
unfolding same_column
find_column ref [] = none
find_column ref (column ∷ columns) =
    if same_column column.ref ref then some column else find_column ref columns

-- `SchemaSnapshot.column_for`
unfoldable pub column_for : SchemaSnapshot → ColumnRef → Option ColumnInfo
unfolding find_column
column_for snapshot ref = find_column ref snapshot.columns

-- The order of tuples of two texts.
abbrev pub table_ltb : Text × Text → Text × Text → Bool
table_ltb (a, b) (c, d) = if text_eq a c then text_ltb b d else text_ltb a c

-- The set of the tables, as a list without repetition.
unfoldable pub tables_of : List ColumnInfo → List (Text × Text)
tables_of [] = []
tables_of (column ∷ columns) =
    let tables = tables_of columns in
    if elem (column.ref.schema_name, column.ref.table) tables
    then tables
    else (column.ref.schema_name, column.ref.table) ∷ tables

-- `SchemaSnapshot.table_refs`
unfoldable pub table_refs : SchemaSnapshot → List (Text × Text)
unfolding tables_of
table_refs snapshot = sort table_ltb (tables_of snapshot.columns)
