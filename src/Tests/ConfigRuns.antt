-- ===== src/Tests/ConfigRuns.antt =====
-- The table mapping of a policy with two groups, which mask two columns of one table.
use db_sanitizer.Base.{◌≡◌, refl, true, [], ◌∷◌, all}
use db_sanitizer.Base.Dict.{lookup, insert}
use db_sanitizer.Base.Text.{codes, text_eq, text_eq_instance}
use db_sanitizer.Errors.{ok}
use db_sanitizer.Greenmask.Config.{
  Tables, table_key, columns_of, add_column, add_columns, add_groups, table_mapping,
}
use db_sanitizer.Greenmask.Config.Assigned.{AllColumnsValid, table_mapping-group_for_column}
use db_sanitizer.Policy.Models.{ColumnRef, Groups, group_for_column, is_valid_column}
use db_sanitizer.Tests.Samples.{people, name_column, name_group}

abbrev alias : ColumnRef
alias = record name_column { column = codes "alias" }

abbrev groups : Groups
groups = (people, name_group) ∷ (codes "aliases", record name_group { columns = alias ∷ [] }) ∷ []

abbrev tables : Tables
tables = (codes "public.users", (codes "alias", codes "aliases") ∷ (codes "name", people) ∷ []) ∷ []

mapped : table_mapping groups ≡ ok tables
unfolding table_mapping add_groups add_columns add_column lookup insert text_eq
    db_sanitizer.Base.Sort.sort db_sanitizer.Base.Sort.sort_insert db_sanitizer.Base.Text.text_ltb
mapped = refl

columns_valid : AllColumnsValid groups
unfolding is_valid_column db_sanitizer.Policy.Names.is_identifier
columns_valid = (refl, (refl, tt))

alias_valid : is_valid_column alias ≡ true
unfolding is_valid_column db_sanitizer.Policy.Names.is_identifier
alias_valid = refl

table_mapping-group_for_column_example :
    lookup (codes "alias") (columns_of (table_key alias) tables) ≡ group_for_column alias groups
table_mapping-group_for_column_example =
    table_mapping-group_for_column groups tables alias columns_valid alias_valid mapped
