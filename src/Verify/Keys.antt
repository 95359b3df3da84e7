-- ===== src/Verify/Keys.antt =====
-- `KeyConstraint`, `read_key_constraints` and `check_primary_unique_constraints` of
-- db_sanitizer/verify/checks.py.
pub mod Integrity
use db_sanitizer.Base.{
  ℕ, ◌+◌, ◌≡◌, ◌↔◌, arith, Bool, true, false, not, ◌&&◌, ◌||◌, Option, none, some, List, [], ◌∷◌,
  map, all, any, filter, length, ◌==◌, is_some, if◌then◌else◌,
}
use db_sanitizer.Base.Eq.{Eq, elem, pair_eq, list_eq}
use db_sanitizer.Base.Counter.{excess}
use db_sanitizer.Base.Text.{Text, codes, text_eq, text_eq_instance}
use db_sanitizer.Errors.{
  Error, Result, ok, err, ◌>>=◌, ◌>>◌, raise_if, verification_error, validation_error, unexpected,
}
use db_sanitizer.Mapping.Normalization.{Value}
use db_sanitizer.Policy.Models.{ColumnRef, Groups, group_for_column, is_valid_column}
use db_sanitizer.Policy.Names.{is_identifier}
use db_sanitizer.Verify.Checks.{CheckResult, required, status_of}
use db_sanitizer.Verify.Mappings.{key_eq}
use db_sanitizer.Verify.Connection.{
  Connection, OrderedSelect, count_query, duplicate_keys, null_keys, table_identifier,
  ordered_select_statement, executed_cursor, sum_results,
}

pub data KeyKind : Type 0 where
  primary_key unique : KeyKind

abbrev pub is_primary : KeyKind → Bool
is_primary primary_key = true
is_primary unique = false

abbrev pub same_kind : KeyKind → KeyKind → Bool
same_kind primary_key primary_key = true
same_kind unique unique = true
same_kind _ _ = false

pub same_kind_iff : (a b : KeyKind) → (same_kind a b ≡ true) ↔ (a ≡ b)
same_kind_iff a b = ground arith

instance abbrev pub kind_eq : Eq KeyKind
kind_eq = record { beq = same_kind; beq_iff = same_kind_iff }

pub record KeyConstraint : Type 0 where
  pub kind : KeyKind
  pub schema_name : Text
  pub table : Text
  pub columns : List Text

-- `KeyConstraint.__post_init__`: its `ValueError`s are seen by `read_key_constraints` only.
unfoldable pub is_valid_constraint : KeyConstraint → Bool
is_valid_constraint c =
    is_identifier c.schema_name
    && is_identifier c.table
    && not (length c.columns == 0)
    && all is_identifier c.columns

abbrev pub table_key : KeyConstraint → Text × Text
table_key c = (c.schema_name, c.table)

abbrev pub Signature : Type 0
Signature = KeyKind × ((Text × Text) × List Text)

abbrev pub signature_eq : Eq Signature
signature_eq = pair_eq ⦃f = pair_eq ⦃f = list_eq⦄⦄

-- `KeyConstraint.signature`
abbrev pub signature : KeyConstraint → Signature
signature c = (c.kind, (table_key c, c.columns))

-- A row of the catalog, with the kind "p" or another.
unfoldable pub constraint_of : Text → Text → Text → Option (List Text) → Result KeyConstraint
unfolding is_valid_constraint
constraint_of schema_name table kind none = err unexpected
constraint_of schema_name table kind (some columns) =
    let c : KeyConstraint = record {
      kind = if text_eq kind (codes "p") then primary_key else unique;
      schema_name = schema_name;
      table = table;
      columns = columns;
    } in
    raise_if (not (is_valid_constraint c)) unexpected >> ok c

unfoldable pub constraints_of :
    List (Text × Text × Text × Option (List Text)) → Result (List KeyConstraint)
constraints_of [] = ok []
constraints_of ((schema_name, table, kind, columns) ∷ rows) =
    constraint_of schema_name table kind columns >>= λ c.
    constraints_of rows >>= λ constraints. ok (c ∷ constraints)

-- `read_key_constraints`: every error leaves it as a `VerificationError`.
unfoldable pub read_key_constraints : Connection → Result (List KeyConstraint)
read_key_constraints connection = elim (connection.keys >>= constraints_of) [
  | ok constraints ↦ ok constraints
  | err e ↦ err verification_error
]

-- `any(policy.group_for_column(...) is not None for column in columns)`
unfoldable pub is_any_configured : Groups → Text → Text → List Text → Result Bool
is_any_configured groups schema_name table [] = ok false
is_any_configured groups schema_name table (column ∷ columns) =
    let ref : ColumnRef = record { schema_name = schema_name; table = table; column = column } in
    let rest = is_any_configured groups schema_name table columns in
    raise_if (not (is_valid_column ref)) validation_error
    >> (if is_some (group_for_column ref groups) then ok true else rest)

-- `_primary_key_is_configured`
unfoldable pub primary_key_is_configured : Groups → KeyConstraint → Result Bool
unfolding is_any_configured
primary_key_is_configured groups c = is_any_configured groups c.schema_name c.table c.columns

-- `_duplicate_key_group_count`
unfoldable pub duplicate_key_group_count : Connection → KeyConstraint → Result ℕ
duplicate_key_group_count connection c = table_identifier c.schema_name c.table >>= λ name.
    count_query connection (duplicate_keys name c.columns)

-- `_primary_key_null_count`, for a primary key; another kind has none to count.
unfoldable pub primary_key_null_count : Connection → KeyConstraint → Result ℕ
primary_key_null_count connection c =
    if is_primary c.kind
    then (table_identifier c.schema_name c.table >>= λ name.
        count_query connection (null_keys name c.columns))
    else ok 0

-- The loop over the constraints of the target: `duplicate_key_groups`, `primary_key_null_rows`.
unfoldable pub key_counts : Connection → List KeyConstraint → Result (ℕ × ℕ)
key_counts target [] = ok (0, 0)
key_counts target (c ∷ constraints) = duplicate_key_group_count target c >>= λ duplicates.
    primary_key_null_count target c >>= λ nulls.
    key_counts target constraints >>= λ rest. ok (duplicates + rest.0, nulls + rest.1)

-- The loop over `zip_longest(source, target)`: `rows_checked`, `mismatches`.
unfoldable pub compare_keys : List (List Value) → List (List Value) → ℕ × ℕ
compare_keys [] [] = (0, 0)
compare_keys [] (row ∷ target) =
    let (checked, mismatches) = compare_keys [] target in (checked, mismatches + 1)
compare_keys (row ∷ source) [] =
    let (checked, mismatches) = compare_keys source [] in (checked, mismatches + 1)
compare_keys (row ∷ source) (other_row ∷ target) =
    let (checked, mismatches) = compare_keys source target in
    (checked + 1, if key_eq row other_row then mismatches else mismatches + 1)

-- `_ordered_key_comparison`
unfoldable pub ordered_key_comparison : Connection → Connection → ℕ → KeyConstraint → Result (ℕ × ℕ)
ordered_key_comparison source target fetch_size c =
    ordered_select_statement c.schema_name c.table c.columns none >>= λ statement.
    executed_cursor fetch_size (source.ordered statement) >>= λ source_rows.
    executed_cursor fetch_size (target.ordered statement) >>= λ target_rows.
    ok (compare_keys source_rows target_rows)

module _ (source target : Connection) (groups : Groups) (fetch_size : ℕ)
    (target_constraints : List KeyConstraint) where
  -- `constraint.signature in target_primary_signatures`, for a primary key.
  unfoldable pub is_shared_primary_key : KeyConstraint → Bool
  is_shared_primary_key c =
      is_primary c.kind
      && elem ⦃e = signature_eq⦄ (signature c)
          (map signature (filter (λ t. is_primary t.kind) target_constraints))

  -- The loop body over the constraints of the source: `primary_key_value_mismatches`.
  unfoldable pub key_value_mismatches : KeyConstraint → Result ℕ
  key_value_mismatches c =
      if not (is_shared_primary_key c)
      then ok 0
      else (primary_key_is_configured groups c >>= λ configured.
          if configured
          then ok 0
          else (ordered_key_comparison source target fetch_size c >>= λ compared. ok compared.1))

-- `check_primary_unique_constraints`
unfoldable pub check_primary_unique_constraints :
    Connection
    → Connection
    → Groups
    → List KeyConstraint
    → List KeyConstraint
    → ℕ
    → Result CheckResult
check_primary_unique_constraints source target groups source_constraints target_constraints
      fetch_size =
    let source_signatures = map signature source_constraints in
    let target_signatures = map signature target_constraints in
    let missing = excess ⦃e = signature_eq⦄ source_signatures target_signatures in
    let extra = excess ⦃e = signature_eq⦄ target_signatures source_signatures in
    key_counts target target_constraints >>= λ counts.
    sum_results (key_value_mismatches source target groups fetch_size target_constraints)
      source_constraints
    >>= λ mismatches. ok (record {
      id = codes "primary_unique_constraints";
      severity = required;
      status =
          status_of
            (missing == 0 && extra == 0 && counts.0 == 0 && counts.1 == 0 && mismatches == 0);
    })
