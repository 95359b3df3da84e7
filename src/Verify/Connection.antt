-- ===== src/Verify/Connection.antt =====
-- The queries of db_sanitizer/verify/checks.py, and how their answers and errors are read. A
-- connection is what PostgreSQL answers to each query: an error, or its rows.
use db_sanitizer.Base.{
  ℕ, Bool, not, Option, none, some, List, [], ◌∷◌, all, length, ◌==◌, ◌≡◌, inl, inr, arith, ◌+◌,
  false,
}
use db_sanitizer.Base.Text.{Text}
use db_sanitizer.Errors.{
  Result, ok, err, ◌>>=◌, ◌>>◌, raise_if, verification_error, unexpected, Result-cases,
}
use db_sanitizer.Mapping.Normalization.{Value}
use db_sanitizer.Policy.Models.{ColumnRef}
use db_sanitizer.Policy.Schema.{SchemaSnapshot}
use db_sanitizer.Policy.Names.{is_identifier}

-- The statements that `_count_query` executes.
pub data CountQuery : Type 0 where
  -- all rows of the table
  table_rows : Text × Text → CountQuery
  -- the groups of rows that are equal at these columns, none of them NULL
  duplicate_keys : Text × Text → List Text → CountQuery
  -- the rows with a NULL at one of these columns
  null_keys : Text × Text → List Text → CountQuery
  -- the foreign keys that are not validated
  unvalidated_foreign_keys : CountQuery
  -- The rows of the first table without a partner in the second: a row counts if all the child's
  -- columns are set, or, when the flag is false, if one of them is.
  orphans : Text × Text → Text × Text → Bool → List (Text × Text) → CountQuery

-- `SELECT key_columns, value_column FROM table ORDER BY key_columns`
pub record OrderedSelect : Type 0 where
  pub table : Text × Text
  pub key_columns : List Text
  pub value_column : Option Text

pub record Connection : Type 0 where
  -- what `inspect_schema` reads
  pub inspected : Result SchemaSnapshot
  -- the first row, if there is one
  pub count : CountQuery → Result (Option ℕ)
  -- of one row: the number of NULLs of a column, and that of its distinct values
  pub counts : ColumnRef → Result (Option (ℕ × ℕ))
  -- schema, table, kind and columns of each key constraint; `none` if the columns are no sequence
  pub keys : Result (List (Text × Text × Text × Option (List Text)))
  pub ordered : OrderedSelect → Result (List (List Value))
  pub column : ColumnRef → Result (List Value)

-- `_count_query`
unfoldable pub count_query : Connection → CountQuery → Result ℕ
count_query connection query = elim (connection.count query) [
  | ok (some n) ↦ ok n
  | ok none ↦ err verification_error
  | err e ↦ err verification_error
]

-- `_table_identifier`, whose `_validate_identifier` raises a `ValueError`.
unfoldable pub table_identifier : Text → Text → Result (Text × Text)
table_identifier schema_name table =
    raise_if (not (is_identifier schema_name)) unexpected
    >> raise_if (not (is_identifier table)) unexpected
    >> ok (schema_name, table)

-- `_table_row_count`
unfoldable pub table_row_count : Connection → Text × Text → Result ℕ
unfolding table_identifier count_query
table_row_count connection (schema_name, table) =
    table_identifier schema_name table >>= λ name. count_query connection (table_rows name)

-- `_column_counts`
unfoldable pub column_counts : Connection → ColumnRef → Result (ℕ × ℕ)
unfolding table_identifier
column_counts connection ref = table_identifier ref.schema_name ref.table >>= λ name.
    elim (connection.counts ref) [
      | ok (some counts) ↦ ok counts
      | ok none ↦ err verification_error
      | err e ↦ err verification_error
    ]

-- `_ordered_select_statement`
unfoldable pub ordered_select_statement :
    Text → Text → List Text → Option Text → Result OrderedSelect
unfolding table_identifier
ordered_select_statement schema_name table key_columns value_column =
    raise_if (length key_columns == 0) verification_error
    >> table_identifier schema_name table
    >>= λ name. ok (record { table = name; key_columns = key_columns; value_column = value_column })

-- `_executed_cursor` and `_cursor_rows`: all batches together.
unfoldable pub executed_cursor {ℓ} : {A : Type ℓ} → ℕ → Result (List A) → Result (List A)
executed_cursor fetch_size rows =
    raise_if (fetch_size == 0) verification_error
    >> elim rows [ ok rows' ↦ ok rows' | err e ↦ err verification_error ]

-- `_iter_column_values`
unfoldable pub iter_column_values : Connection → ℕ → ColumnRef → Result (List Value)
unfolding table_identifier executed_cursor
iter_column_values connection fetch_size ref =
    table_identifier ref.schema_name ref.table >> executed_cursor fetch_size (connection.column ref)

-- `sum(f(x) for x in xs)` where `f` may raise.
unfoldable pub sum_results {ℓ} : {A : Type ℓ} → (A → Result ℕ) → List A → Result ℕ
sum_results f [] = ok 0
sum_results f (x ∷ xs) = f x >>= λ n. sum_results f xs >>= λ m. ok (n + m)

abbrev pub is_zero : Result ℕ → Bool
is_zero (ok n) = n == 0
is_zero (err e) = false

-- A sum that is there is zero exactly when each part is.
pub sum_results_zero {ℓ} :
    {A : Type ℓ} (f : A → Result ℕ) (xs : List A) (n : ℕ)
    → sum_results f xs ≡ ok n
    → (n == 0) ≡ all (λ x. is_zero (f x)) xs
unfolding sum_results
sum_results_zero f [] n h = ground arith
sum_results_zero f (x ∷ xs) n h = elim (Result-cases (f x)) [
  | inr (e, p) ↦ absurd (ground arith)
  | inl (k, p) ↦ elim (Result-cases (sum_results f xs)) [
    | inr (e, q) ↦ absurd (ground arith)
    | inl (m, q) ↦ ground (arith, sum_results_zero f xs m q)
  ]
]
