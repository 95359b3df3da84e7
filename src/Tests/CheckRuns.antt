-- ===== src/Tests/CheckRuns.antt =====
-- Runs of the checks on the two small databases.
use db_sanitizer.Base.{◌≡◌, ◌↔◌, refl, true, false, ◌&&◌, List, [], ◌∷◌, All, all, map}
use db_sanitizer.Base.Dict.{lookup}
use db_sanitizer.Base.Sort.{sort}
use db_sanitizer.Base.Eq.{pair_eq}
use db_sanitizer.Base.Text.{Text, codes, text_eq_instance, text_ltb}
use db_sanitizer.Errors.{ok}
use db_sanitizer.Mapping.Normalization.{str}
use db_sanitizer.Policy.Models.{Key}
use db_sanitizer.Policy.Schema.{SchemaSnapshot}
use db_sanitizer.Verify.Checks.{CheckResult, is_pass, required, pass}
use db_sanitizer.Verify.Connection.{count_query, unvalidated_foreign_keys, is_zero}
use db_sanitizer.Verify.SchemaColumns.{types_of, check_schema_columns_types}
use db_sanitizer.Verify.SchemaColumns.Equal.{check_schema_columns_types_iff}
use db_sanitizer.Verify.ForeignKeys.{foreign_key_orphan_count, check_foreign_keys}
use db_sanitizer.Verify.ForeignKeys.Same.{SameForeignKeys, check_foreign_keys_iff}
use db_sanitizer.Verify.Keys.{check_primary_unique_constraints}
use db_sanitizer.Verify.Keys.Integrity.{
  SameKeys, is_intact, keeps_values, check_primary_unique_constraints_iff,
}
use db_sanitizer.Verify.Statistics.{configured_items}
use db_sanitizer.Verify.Configured.{check_configured_mappings}
use db_sanitizer.Verify.Configured.Columns.{IsMaskedItem, check_configured_mappings_iff}
use db_sanitizer.Verify.Nonintersection.{GroupHmacStats, check_source_target_hmac_nonintersection}
use db_sanitizer.Verify.Nonintersection.Clean.{
  groups_clean, check_source_target_hmac_nonintersection_iff,
}
use db_sanitizer.Tests.Samples.{unicode, crypto, secret, people, mapped_registry}
use db_sanitizer.Tests.Databases.{groups, users, users_key, source, target}

abbrev source_schema : SchemaSnapshot
source_schema = users (codes "text")

abbrev target_schema : SchemaSnapshot
target_schema = users (codes "text ")

abbrev passing : Text → CheckResult
passing id = record { id = id; severity = required; status = pass }

check_schema_columns_types_iff_example :
    (is_pass (check_schema_columns_types unicode source_schema target_schema) ≡ true) ↔ (
      (k : Key)
      → lookup k (types_of unicode source_schema) ≡ lookup k (types_of unicode target_schema))
check_schema_columns_types_iff_example =
    check_schema_columns_types_iff unicode source_schema target_schema

-- The spaces of a type do not count.
types_pass : is_pass (check_schema_columns_types unicode source_schema target_schema) ≡ true
unfolding check_schema_columns_types types_of db_sanitizer.Verify.SchemaColumns.columns_dict
    db_sanitizer.Base.Dict.insert db_sanitizer.Base.Text.text_eq lookup
    db_sanitizer.Verify.SchemaColumns.canonical_type db_sanitizer.Verify.SchemaColumns.join_words
    db_sanitizer.Verify.SchemaColumns.split_words
types_pass = refl

foreign_keys_checked :
    check_foreign_keys target source_schema target_schema ≡ ok (passing (codes "foreign_keys"))
unfolding check_foreign_keys count_query db_sanitizer.Verify.Connection.sum_results
    foreign_key_orphan_count db_sanitizer.Verify.Connection.table_identifier
    db_sanitizer.Policy.Names.is_identifier db_sanitizer.Base.Counter.excess
    db_sanitizer.Base.Text.text_eq
foreign_keys_checked = refl

check_foreign_keys_iff_example : (is_pass (passing (codes "foreign_keys")) ≡ true) ↔ (
    SameForeignKeys source_schema target_schema
    × (is_zero (count_query target unvalidated_foreign_keys) ≡ true)
    × (all (λ f. is_zero (foreign_key_orphan_count target f)) target_schema.foreign_keys ≡ true))
check_foreign_keys_iff_example =
    check_foreign_keys_iff target source_schema target_schema (passing (codes "foreign_keys"))
      foreign_keys_checked

keys_checked :
    check_primary_unique_constraints source target groups (users_key ∷ []) (users_key ∷ []) 10
    ≡ ok (passing (codes "primary_unique_constraints"))
unfolding check_primary_unique_constraints db_sanitizer.Verify.Keys.key_counts
    db_sanitizer.Verify.Keys.duplicate_key_group_count
    db_sanitizer.Verify.Connection.table_identifier db_sanitizer.Policy.Names.is_identifier
    count_query db_sanitizer.Verify.Keys.primary_key_null_count
    db_sanitizer.Verify.Connection.sum_results db_sanitizer.Verify.Keys.key_value_mismatches
    db_sanitizer.Verify.Keys.is_shared_primary_key db_sanitizer.Base.Text.text_eq
    db_sanitizer.Verify.Keys.primary_key_is_configured db_sanitizer.Policy.Models.is_valid_column
    db_sanitizer.Policy.Models.group_for_column db_sanitizer.Verify.Keys.ordered_key_comparison
    db_sanitizer.Verify.Connection.ordered_select_statement
    db_sanitizer.Verify.Connection.executed_cursor db_sanitizer.Base.Counter.excess
    db_sanitizer.Base.Counter.uniques db_sanitizer.Policy.Models.has_column
    db_sanitizer.Policy.Models.same_column db_sanitizer.Verify.Keys.compare_keys
    db_sanitizer.Verify.Keys.is_any_configured db_sanitizer.Verify.Mappings.key_eq
    db_sanitizer.Verify.Mappings.value_eq
keys_checked = refl

check_primary_unique_constraints_iff_example :
    (is_pass (passing (codes "primary_unique_constraints")) ≡ true) ↔ (
      SameKeys (users_key ∷ []) (users_key ∷ [])
      × (all (is_intact target) (users_key ∷ []) ≡ true)
      × (all (keeps_values source target groups 10 (users_key ∷ [])) (users_key ∷ []) ≡ true))
check_primary_unique_constraints_iff_example =
    check_primary_unique_constraints_iff source target groups (users_key ∷ []) (users_key ∷ []) 10
      (passing (codes "primary_unique_constraints")) keys_checked

mappings_checked :
    check_configured_mappings unicode crypto secret source target groups source_schema target_schema
      (users_key ∷ [])
      (users_key ∷ [])
      10
      mapped_registry
    ≡ (ok (passing (codes "configured_mappings")), mapped_registry)
unfolding check_configured_mappings db_sanitizer.Verify.Configured.check_items configured_items
    db_sanitizer.Verify.Statistics.items_of sort db_sanitizer.Base.Sort.sort_insert
    db_sanitizer.Verify.Configured.check_item db_sanitizer.Policy.Schema.column_for
    db_sanitizer.Base.Text.text_eq db_sanitizer.Verify.Configured.alignment_key lookup
    db_sanitizer.Verify.Configured.primary_keys db_sanitizer.Base.Dict.insert
    db_sanitizer.Verify.Keys.primary_key_is_configured db_sanitizer.Policy.Models.is_valid_column
    db_sanitizer.Policy.Names.is_identifier db_sanitizer.Policy.Models.group_for_column
    db_sanitizer.Verify.Configured.compare_column db_sanitizer.Base.Dict.erase text_ltb
    db_sanitizer.Exec.transaction db_sanitizer.Mapping.HmacKey.digest
    db_sanitizer.Mapping.HmacKey.encode db_sanitizer.Mapping.HmacKey.is_surrogate
    db_sanitizer.Mapping.HmacKey.source_hmac db_sanitizer.Mapping.HmacKey.utf8_char
    db_sanitizer.Mapping.Normalization.canonical db_sanitizer.Mapping.Normalization.normalize
    db_sanitizer.Mapping.Normalization.strip db_sanitizer.Mapping.Registry.Accumulator.add
    db_sanitizer.Mapping.Registry.Accumulator.multiset_difference_count
    db_sanitizer.Mapping.Registry.Accumulator.upsert
    db_sanitizer.Mapping.Registry.Accumulator.upsert_all db_sanitizer.Mapping.Registry.is_digest
    db_sanitizer.Mapping.Registry.is_hex db_sanitizer.Mapping.Registry.lookup
    db_sanitizer.Mapping.Registry.validate_key db_sanitizer.Mapping.Registry.validate_keys
    db_sanitizer.Mapping.Tables.is_key db_sanitizer.Mapping.Tables.select_key
    db_sanitizer.Policy.Models.has_column db_sanitizer.Policy.Models.normalization_value
    db_sanitizer.Policy.Models.same_column db_sanitizer.Policy.Schema.find_column
    db_sanitizer.Verify.Aggregate.check_mapping_aggregate
    db_sanitizer.Verify.Aggregate.compare_columns db_sanitizer.Verify.Aggregate.expect
    db_sanitizer.Verify.Aggregate.expect_all db_sanitizer.Verify.Aggregate.push
    db_sanitizer.Verify.Aggregate.see_all db_sanitizer.Verify.Configured.aligned_rows
    db_sanitizer.Verify.Configured.cache_for db_sanitizer.Verify.Configured.split_row
    db_sanitizer.Verify.Configured.split_rows db_sanitizer.Verify.Configured.with_cache
    db_sanitizer.Verify.Connection.executed_cursor db_sanitizer.Verify.Connection.iter_column_values
    db_sanitizer.Verify.Connection.ordered_select_statement
    db_sanitizer.Verify.Connection.table_identifier db_sanitizer.Verify.Keys.is_any_configured
    db_sanitizer.Verify.LookupCache.cached_lookup db_sanitizer.Verify.LookupCache.drop_oldest
    db_sanitizer.Verify.Mappings.check_mapping_by_primary_key
    db_sanitizer.Verify.Mappings.compare_mapping_values db_sanitizer.Verify.Mappings.compare_rows
    db_sanitizer.Verify.Mappings.compare_target db_sanitizer.Verify.Mappings.digest_for_check
    db_sanitizer.Verify.Mappings.expected_replacement db_sanitizer.Verify.Mappings.failed
    db_sanitizer.Verify.Mappings.key_eq db_sanitizer.Verify.Mappings.value_eq
mappings_checked = refl

check_configured_mappings_iff_example :
    ((is_pass (passing (codes "configured_mappings")) ≡ true)
      ↔ All
          (IsMaskedItem unicode crypto secret source target groups source_schema target_schema
            (users_key ∷ [])
            (users_key ∷ [])
            10
            mapped_registry)
          (configured_items groups))
    × (mapped_registry.mappings ≡ mapped_registry.mappings)
check_configured_mappings_iff_example =
    check_configured_mappings_iff unicode crypto secret source target groups source_schema
      target_schema (users_key ∷ []) (users_key ∷ []) 10 mapped_registry mapped_registry
      (passing (codes "configured_mappings")) mappings_checked

abbrev hmac_stats : List GroupHmacStats
hmac_stats =
    record {
      group_id = people;
      target_distinct = 1;
      intersection_keys = 0;
      invalid_values = 0;
      unavailable_columns = 0;
    }
    ∷ []

hmacs_checked :
    check_source_target_hmac_nonintersection unicode crypto secret target target_schema 10 groups
      mapped_registry
    ≡ (ok (hmac_stats, passing (codes "source_target_hmac_nonintersection")), mapped_registry)
unfolding check_source_target_hmac_nonintersection db_sanitizer.Verify.Nonintersection.check_groups
    sort db_sanitizer.Base.Sort.sort_insert db_sanitizer.Verify.Nonintersection.check_group
    db_sanitizer.Mapping.Registry.Accumulator.with_accumulator db_sanitizer.Exec.transaction
    db_sanitizer.Verify.Nonintersection.see_group db_sanitizer.Verify.Nonintersection.see_columns
    db_sanitizer.Policy.Schema.column_for db_sanitizer.Base.Text.text_eq
    db_sanitizer.Verify.Connection.iter_column_values db_sanitizer.Policy.Names.is_identifier
    db_sanitizer.Verify.Nonintersection.see_values db_sanitizer.Verify.Mappings.digest_for_check
    db_sanitizer.Mapping.Normalization.normalize db_sanitizer.Policy.Models.normalization_value
    db_sanitizer.Mapping.Normalization.strip text_ltb db_sanitizer.Mapping.HmacKey.digest
    db_sanitizer.Mapping.HmacKey.encode db_sanitizer.Mapping.HmacKey.is_surrogate
    db_sanitizer.Mapping.HmacKey.source_hmac db_sanitizer.Mapping.HmacKey.utf8_char
    db_sanitizer.Mapping.Normalization.canonical
    db_sanitizer.Mapping.Registry.Accumulator.actual_distinct_count
    db_sanitizer.Mapping.Registry.Accumulator.add
    db_sanitizer.Mapping.Registry.Accumulator.source_intersection_count
    db_sanitizer.Mapping.Registry.Accumulator.upsert
    db_sanitizer.Mapping.Registry.Accumulator.upsert_all db_sanitizer.Mapping.Registry.is_digest
    db_sanitizer.Mapping.Registry.is_hex db_sanitizer.Mapping.Registry.validate_key
    db_sanitizer.Mapping.Registry.validate_keys db_sanitizer.Mapping.Tables.has_key
    db_sanitizer.Mapping.Tables.is_key db_sanitizer.Policy.Models.same_column
    db_sanitizer.Policy.Schema.find_column db_sanitizer.Verify.Connection.executed_cursor
    db_sanitizer.Verify.Connection.table_identifier db_sanitizer.Verify.Nonintersection.push
hmacs_checked = refl

check_source_target_hmac_nonintersection_iff_example :
    (is_pass (passing (codes "source_target_hmac_nonintersection"))
      ≡ groups_clean unicode crypto secret target target_schema 10 mapped_registry.mappings
          (sort (λ a b. text_ltb a.0 b.0) groups))
    × (mapped_registry.mappings ≡ mapped_registry.mappings)
check_source_target_hmac_nonintersection_iff_example =
    check_source_target_hmac_nonintersection_iff unicode crypto secret target target_schema 10
      groups mapped_registry mapped_registry hmac_stats
      (passing (codes "source_target_hmac_nonintersection")) hmacs_checked
