-- ===== src/Verify/Configured.antt =====
-- `check_configured_mappings` of db_sanitizer/verify/checks.py: which columns are compared, and how.
-- Both cursors of a comparison are read before its loop.
pub mod Caches
pub mod Masked
pub mod Columns
use db_sanitizer.Base.{
  ℕ, ◌+◌, Bool, true, false, not, ◌&&◌, Option, none, some, List, [], ◌∷◌, map, filter,
  if◌then◌else◌,
}
use db_sanitizer.Base.Dict.{Dict, lookup, insert}
use db_sanitizer.Base.Eq.{elem, pair_eq}
use db_sanitizer.Base.Text.{Text, codes, text_eq_instance}
use db_sanitizer.Errors.{Result, ok, err, ◌>>=◌, verification_error}
use db_sanitizer.Exec.{Exec}
use db_sanitizer.Mapping.HmacKey.{Bytes, Crypto}
use db_sanitizer.Mapping.Normalization.{Unicode, Value}
use db_sanitizer.Mapping.Registry.{Registry}
use db_sanitizer.Policy.Models.{ColumnRef, ConsistencyGroup, Groups, normalization_value}
use db_sanitizer.Policy.Schema.{SchemaSnapshot}
use db_sanitizer.Verify.Checks.{CheckResult, required, status_of}
use db_sanitizer.Verify.Connection.{
  Connection, ordered_select_statement, executed_cursor, iter_column_values,
}
use db_sanitizer.Verify.Keys.{
  KeyConstraint, is_primary, signature, signature_eq, table_key, primary_key_is_configured,
}
use db_sanitizer.Verify.LookupCache.{ReplacementLookupCache, new_cache}
use db_sanitizer.Verify.Mappings.{
  MappingMetrics, Comparison, Row, failed, check_mapping_by_primary_key,
}
use db_sanitizer.Verify.Aggregate.{check_mapping_aggregate}
use db_sanitizer.Verify.Statistics.{Item, configured_items, is_available}

-- The variables of the check. All caches hold the one registry, so that of a stored cache is
-- replaced by this one when the cache is taken.
pub record Checking : Type 0 where
  pub metrics : MappingMetrics
  pub lookup_caches : Dict Text ReplacementLookupCache
  pub registry : Registry

-- `_MappingMetrics()`
abbrev pub no_metrics : MappingMetrics
no_metrics = record {
  columns_checked = 0;
  primary_key_columns = 0;
  aggregate_columns = 0;
  unavailable_columns = 0;
  rows_checked = 0;
  primary_key_mismatches = 0;
  null_mismatches = 0;
  missing_mappings = 0;
  mapping_mismatches = 0;
  unchanged_values = 0;
  invalid_source_values = 0;
  invalid_target_values = 0;
}

-- `lookup_caches.setdefault(group_id, _ReplacementLookupCache(registry, group_id))`
unfoldable pub cache_for : Text → Checking → ReplacementLookupCache
cache_for group_id s = elim (lookup group_id s.lookup_caches) [
  | some cache ↦ record cache { registry = s.registry }
  | none ↦ new_cache s.registry group_id
]

-- A comparison on the cache of a group.
unfoldable pub with_cache : Text → Exec Comparison (Unit {0}) → Exec Checking (Unit {0})
with_cache group_id compare s =
    let cache = cache_for group_id s in
    let (result, t) = compare (record { metrics = s.metrics; cache = cache }) in
    (
      result,
      record {
        metrics = t.metrics;
        lookup_caches = insert group_id t.cache s.lookup_caches;
        registry = t.cache.registry;
      },
    )

-- `row[:-1], row[-1]`; a row without a value raises an `IndexError`, which leaves the comparison
-- as a `VerificationError`.
unfoldable pub split_row : List Value → Result Row
split_row [] = err verification_error
split_row (v ∷ []) = ok ([], v)
split_row (k ∷ row) = split_row row >>= λ rest. ok (k ∷ rest.0, rest.1)

unfoldable pub split_rows : List (List Value) → Result (List Row)
split_rows [] = ok []
split_rows (row ∷ rows) = split_row row >>= λ r. split_rows rows >>= λ rest. ok (r ∷ rest)

-- The rows of a table, in the order of a key, with the value of a column.
unfoldable pub aligned_rows : Connection → ℕ → KeyConstraint → ColumnRef → Result (List Row)
aligned_rows connection fetch_size c ref =
    ordered_select_statement ref.schema_name ref.table c.columns (some ref.column) >>= λ statement.
    executed_cursor fetch_size (connection.ordered statement) >>= split_rows

-- `source_primary_keys`: the last primary key of each table.
unfoldable pub primary_keys :
    List KeyConstraint → Dict (Text × Text) KeyConstraint → Dict (Text × Text) KeyConstraint
primary_keys [] d = d
primary_keys (c ∷ constraints) d =
    primary_keys constraints (if is_primary c.kind then insert (table_key c) c d else d)

module _ (u : Unicode) (crypto : Crypto) (secret : Bytes) (source target : Connection)
    (groups : Groups) (source_snapshot target_snapshot : SchemaSnapshot)
    (source_constraints target_constraints : List KeyConstraint) (fetch_size : ℕ) where
  -- The key by which the rows of a column's table can be aligned, if there is one.
  unfoldable pub alignment_key : ColumnRef → Result (Option KeyConstraint)
  alignment_key ref =
      elim (lookup (ref.schema_name, ref.table) (primary_keys source_constraints [])) [
        | none ↦ ok none
        | some c ↦
            if elem ⦃e = signature_eq⦄ (signature c)
              (map signature (filter (λ t. is_primary t.kind) target_constraints))
            then (primary_key_is_configured groups c >>= λ configured.
                ok (if configured then none else some c))
            else ok none
      ]

  -- The comparison of a column with the key, or without.
  unfoldable pub compare_column :
      Text → ConsistencyGroup → ColumnRef → Option KeyConstraint → Exec Checking (Unit {0})
  compare_column group_id group ref (some c) s =
      let s' = record s {
        metrics = record s.metrics { primary_key_columns = s.metrics.primary_key_columns + 1 };
      } in
      elim (aligned_rows source fetch_size c ref) [
        | err e ↦ (err e, s')
        | ok source_rows ↦ elim (aligned_rows target fetch_size c ref) [
          | err e ↦ (err e, s')
          | ok target_rows ↦
              with_cache group_id
                (check_mapping_by_primary_key u crypto secret group_id
                  (normalization_value group.normalization) group.allow_empty source_rows
                  target_rows)
                s'
        ]
      ]
  compare_column group_id group ref none s =
      let s' = record s {
        metrics = record s.metrics { aggregate_columns = s.metrics.aggregate_columns + 1 };
      } in
      elim (iter_column_values source fetch_size ref) [
        | err e ↦ (err e, s')
        | ok source_values ↦ elim (iter_column_values target fetch_size ref) [
          | err e ↦ (err e, s')
          | ok target_values ↦
              with_cache group_id
                (check_mapping_aggregate u crypto secret group_id
                  (normalization_value group.normalization) group.allow_empty fetch_size
                  source_values target_values)
                s'
        ]
      ]

  -- The body of the loop.
  unfoldable pub check_item : Item → Exec Checking (Unit {0})
  check_item (group_id, (group, ref)) s =
      let counted = record s.metrics { columns_checked = s.metrics.columns_checked + 1 } in
      if not (is_available source_snapshot target_snapshot ref)
      then (
        ok tt,
        record s {
          metrics = record counted { unavailable_columns = counted.unavailable_columns + 1 };
        },
      )
      else elim (alignment_key ref) [
        | err e ↦ (err e, record s { metrics = counted })
        | ok c ↦ compare_column group_id group ref c (record s { metrics = counted })
      ]

  unfoldable pub check_items : List Item → Exec Checking (Unit {0})
  check_items [] s = (ok tt, s)
  check_items (item ∷ items) s =
      let (result, s') = check_item item s in
      let rest = check_items items s' in elim result [ err e ↦ (err e, s') | ok _ ↦ rest ]

  -- `check_configured_mappings`
  unfoldable pub check_configured_mappings : Exec Registry CheckResult
  check_configured_mappings r =
      let (result, s) =
        check_items (configured_items groups)
          (record { metrics = no_metrics; lookup_caches = []; registry = r }) in
      elim result [
        | err e ↦ (err e, s.registry)
        | ok _ ↦ (
          ok (record {
            id = codes "configured_mappings";
            severity = required;
            status = status_of (not (failed s.metrics));
          }),
          s.registry,
        )
      ]
