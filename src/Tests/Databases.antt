-- ===== src/Tests/Databases.antt =====
-- Two small databases: a table of names, and the same with the names replaced.
use db_sanitizer.Base.{ℕ, false, none, some, List, [], ◌∷◌}
use db_sanitizer.Base.Text.{Text, codes}
use db_sanitizer.Errors.{ok}
use db_sanitizer.Mapping.Normalization.{Value, str, null}
use db_sanitizer.Policy.Models.{ColumnRef, Groups}
use db_sanitizer.Policy.Schema.{SchemaSnapshot, ColumnInfo, ForeignKeyInfo}
use db_sanitizer.Verify.Connection.{
  Connection, CountQuery, OrderedSelect, table_rows, duplicate_keys, null_keys,
  unvalidated_foreign_keys, orphans,
}
use db_sanitizer.Verify.Keys.{KeyConstraint, primary_key}
use db_sanitizer.Tests.Samples.{people, name_column, name_group}

abbrev pub groups : Groups
groups = (people, name_group) ∷ []

abbrev pub id_column : ColumnRef
id_column = record { schema_name = codes "public"; table = codes "users"; column = codes "id" }

-- Each user was invited by another.
abbrev pub inviter_key : ForeignKeyInfo
inviter_key = record {
  name = codes "users_inviter";
  source_columns = id_column ∷ [];
  target_columns = id_column ∷ [];
  match_type = codes "SIMPLE";
}

abbrev pub column_info : ColumnRef → Text → ColumnInfo
column_info ref postgres_type = record {
  ref = ref;
  postgres_type = postgres_type;
  character_maximum_length = none;
  is_primary_key = false;
  is_unique = false;
}

abbrev pub users : Text → SchemaSnapshot
users name_type = record {
  columns = column_info id_column (codes "text") ∷ column_info name_column name_type ∷ [];
  foreign_keys = inviter_key ∷ [];
}

abbrev pub users_key : KeyConstraint
users_key = record {
  kind = primary_key;
  schema_name = codes "public";
  table = codes "users";
  columns = codes "id" ∷ [];
}

abbrev pub ordered_rows : Value → OrderedSelect → List (List Value)
ordered_rows name select = elim select.value_column [
  | none ↦ (str (codes "1") ∷ []) ∷ (str (codes "2") ∷ []) ∷ []
  | some column ↦ (str (codes "1") ∷ name ∷ []) ∷ (str (codes "2") ∷ null ∷ []) ∷ []
]

abbrev pub answer : CountQuery → ℕ
answer (table_rows table) = 2
answer (duplicate_keys table columns) = 0
answer (null_keys table columns) = 0
answer unvalidated_foreign_keys = 0
answer (orphans child parent simple columns) = 0

-- Two users, one with this name, and one without a name.
abbrev pub database : Text → Value → Connection
database name_type name = record {
  inspected = ok (users name_type);
  count = λ query. ok (some (answer query));
  counts = λ ref. ok (some (1, 1));
  keys = ok ((codes "public", codes "users", codes "p", some (codes "id" ∷ [])) ∷ []);
  ordered = λ select. ok (ordered_rows name select);
  column = λ ref. ok (name ∷ null ∷ []);
}

abbrev pub source : Connection
source = database (codes "text") (str (codes "Max"))

abbrev pub target : Connection
target = database (codes "text ") (str (codes "Ada"))
