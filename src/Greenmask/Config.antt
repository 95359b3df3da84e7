-- ===== src/Greenmask/Config.antt =====
-- `_table_mapping` of db_sanitizer/greenmask/config_builder.py: which group masks which column of
-- which table. The files that are written from it are outside.
pub mod Entries
pub mod Assigned
use db_sanitizer.Base.{none, some, List, [], ◌∷◌, ◌++◌, map, is_some, if◌then◌else◌}
use db_sanitizer.Base.Dict.{Dict, lookup, insert}
use db_sanitizer.Base.Sort.{sort}
use db_sanitizer.Base.Text.{Text, codes, text_ltb, text_eq_instance}
use db_sanitizer.Errors.{Result, ok, err, ◌>>=◌, data_plane_error}
use db_sanitizer.Policy.Models.{ColumnRef, Groups}

abbrev pub Tables : Type 0
Tables = Dict Text (Dict Text Text)

-- `f"{column.schema_name}.{column.table}"`
abbrev pub table_key : ColumnRef → Text
table_key column = column.schema_name ++ codes "." ++ column.table

-- `tables.setdefault(table_key, {})`
abbrev pub columns_of : Text → Tables → Dict Text Text
columns_of key tables = elim (lookup key tables) [ none ↦ [] | some columns ↦ columns ]

unfoldable pub add_column : Text → ColumnRef → Tables → Result Tables
add_column group_id column tables =
    let table_columns = columns_of (table_key column) tables in
    if is_some (lookup column.column table_columns)
    then err data_plane_error
    else ok (insert (table_key column) (insert column.column group_id table_columns) tables)

unfoldable pub add_columns : Text → List ColumnRef → Tables → Result Tables
add_columns group_id [] tables = ok tables
add_columns group_id (column ∷ columns) tables =
    add_column group_id column tables >>= add_columns group_id columns

unfoldable pub add_groups : Groups → Tables → Result Tables
add_groups [] tables = ok tables
add_groups ((group_id, group) ∷ groups) tables =
    add_columns group_id group.columns tables >>= add_groups groups

-- `dict(sorted(d.items()))`, by the keys, which are different.
abbrev pub sorted_dict {κ} : {V : Type κ} → Dict Text V → Dict Text V
sorted_dict d = sort (λ a b. text_ltb a.0 b.0) d

-- `_table_mapping`
unfoldable pub table_mapping : Groups → Result Tables
table_mapping groups = add_groups groups [] >>= λ tables.
    ok (map (λ entry. (entry.0, sorted_dict entry.1)) (sorted_dict tables))
