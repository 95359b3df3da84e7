-- ===== src/Tests/RunnerRuns.antt =====
-- A verification of the two small databases, from the queries to the report.
use db_sanitizer.Base.{◌≡◌, ◌↔◌, refl, true, arith, List, [], ◌∷◌}
use db_sanitizer.Base.Text.{Text, codes}
use db_sanitizer.Errors.{Result, ok}
use db_sanitizer.Policy.Models.{person_name}
use db_sanitizer.Policy.Schema.{SchemaSnapshot}
use db_sanitizer.Verify.Checks.{CheckResult, required, pass}
use db_sanitizer.Verify.Inputs.{Inputs, read_inputs}
use db_sanitizer.Verify.Report.{RunReport}
use db_sanitizer.Verify.Runner.{
  VerificationContext, VerificationOutcome, outcome_passed, verify_connections,
  verify_and_write_report,
}
use db_sanitizer.Verify.Runner.Passes.{IsSanitized}
use db_sanitizer.Verify.Runner.Outcome.{verify_connections_iff, verify_and_write_report_returns}
use db_sanitizer.Tests.Samples.{
  unicode, crypto, secret, people, s1, s2, name_column, mapped_registry,
}
use db_sanitizer.Tests.Databases.{groups, users, users_key, source, target}

abbrev passing : Text → CheckResult
passing id = record { id = id; severity = required; status = pass }

abbrev context : VerificationContext
context = record {
  run_id = codes "run";
  policy_sha256 = s1;
  source_schema_sha256 = s2;
  started_at = 1;
  llm = record {
    provider = codes "ollama";
    model = codes "m";
    batches = 1;
    accepted_items = 1;
    rejected_items = 0;
    duration = 1;
  };
}

abbrev fingerprint : SchemaSnapshot → Text
fingerprint snapshot = s2

abbrev report : RunReport
report = record {
  run_id = codes "run";
  started_at = 1;
  finished_at = 2;
  policy_sha256 = s1;
  source_schema_sha256 = s2;
  llm = context.llm;
  tables =
      record {
        name = (codes "public", codes "users");
        source_rows = 2;
        target_rows = 2;
        row_count_equal = true;
      }
      ∷ [];
  groups =
      record {
        id = people;
        entity_type = person_name;
        mapping_count = 1;
        distinct_source = 1;
        distinct_target = 1;
        nulls_source = 1;
        nulls_target = 1;
      }
      ∷ [];
  checks =
      passing (codes "source_schema_fingerprint")
      ∷ passing (codes "schema_columns_types")
      ∷ passing (codes "table_row_counts")
      ∷ passing (codes "configured_column_statistics")
      ∷ passing (codes "foreign_keys")
      ∷ passing (codes "primary_unique_constraints")
      ∷ passing (codes "configured_mappings")
      ∷ passing (codes "source_target_hmac_nonintersection")
      ∷ passing (codes "no_single_placeholder")
      ∷ [];
}

abbrev outcome : VerificationOutcome
outcome = record {
  report = report;
  source_snapshot = users (codes "text");
  target_snapshot = users (codes "text ");
  table_stats =
      record {
        schema_name = codes "public";
        table = codes "users";
        source_rows = 2;
        target_rows = 2;
        row_count_equal = true;
      }
      ∷ [];
  column_stats =
      record {
        group_id = people;
        ref = name_column;
        source_nulls = 1;
        target_nulls = 1;
        source_distinct = 1;
        target_distinct = 1;
        available = true;
      }
      ∷ [];
  group_hmac_stats =
      record {
        group_id = people;
        target_distinct = 1;
        intersection_keys = 0;
        invalid_values = 0;
        unavailable_columns = 0;
      }
      ∷ [];
  source_constraints = users_key ∷ [];
  target_constraints = users_key ∷ [];
}

verified :
    verify_connections unicode crypto secret fingerprint groups 10 source target context 2
      mapped_registry
    ≡ (ok outcome, mapped_registry)
unfolding verify_connections db_sanitizer.Verify.Runner.run_checks
    db_sanitizer.Verify.Inputs.read_inputs db_sanitizer.Verify.Inputs.query_checks
    db_sanitizer.Verify.Runner.reports_of db_sanitizer.Verify.Runner.hmac_by_group
    db_sanitizer.Verify.Keys.read_key_constraints
    db_sanitizer.Verify.SchemaColumns.check_schema_columns_types
    db_sanitizer.Verify.SchemaColumns.types_of db_sanitizer.Verify.SchemaColumns.columns_dict
    db_sanitizer.Base.Dict.insert db_sanitizer.Base.Text.text_eq db_sanitizer.Base.Dict.lookup
    db_sanitizer.Verify.SchemaColumns.canonical_type db_sanitizer.Verify.SchemaColumns.join_words
    db_sanitizer.Verify.SchemaColumns.split_words db_sanitizer.Verify.ForeignKeys.check_foreign_keys
    db_sanitizer.Verify.Connection.count_query db_sanitizer.Verify.Connection.sum_results
    db_sanitizer.Verify.ForeignKeys.foreign_key_orphan_count
    db_sanitizer.Verify.Connection.table_identifier db_sanitizer.Policy.Names.is_identifier
    db_sanitizer.Base.Counter.excess db_sanitizer.Verify.Keys.check_primary_unique_constraints
    db_sanitizer.Verify.Keys.key_counts db_sanitizer.Verify.Keys.duplicate_key_group_count
    db_sanitizer.Verify.Keys.primary_key_null_count db_sanitizer.Verify.Keys.key_value_mismatches
    db_sanitizer.Verify.Keys.is_shared_primary_key
    db_sanitizer.Verify.Keys.primary_key_is_configured db_sanitizer.Policy.Models.is_valid_column
    db_sanitizer.Policy.Models.group_for_column db_sanitizer.Verify.Keys.ordered_key_comparison
    db_sanitizer.Verify.Connection.ordered_select_statement
    db_sanitizer.Verify.Connection.executed_cursor db_sanitizer.Base.Counter.uniques
    db_sanitizer.Policy.Models.has_column db_sanitizer.Policy.Models.same_column
    db_sanitizer.Verify.Keys.compare_keys db_sanitizer.Verify.Keys.is_any_configured
    db_sanitizer.Verify.Mappings.key_eq db_sanitizer.Verify.Mappings.value_eq
    db_sanitizer.Verify.Configured.check_configured_mappings
    db_sanitizer.Verify.Configured.check_items db_sanitizer.Verify.Statistics.configured_items
    db_sanitizer.Verify.Statistics.items_of db_sanitizer.Base.Sort.sort
    db_sanitizer.Base.Sort.sort_insert db_sanitizer.Verify.Configured.check_item
    db_sanitizer.Policy.Schema.column_for db_sanitizer.Verify.Configured.alignment_key
    db_sanitizer.Verify.Configured.primary_keys db_sanitizer.Verify.Configured.compare_column
    db_sanitizer.Base.Dict.erase db_sanitizer.Base.Text.text_ltb db_sanitizer.Exec.transaction
    db_sanitizer.Mapping.HmacKey.digest db_sanitizer.Mapping.HmacKey.encode
    db_sanitizer.Mapping.HmacKey.is_surrogate db_sanitizer.Mapping.HmacKey.source_hmac
    db_sanitizer.Mapping.HmacKey.utf8_char db_sanitizer.Mapping.Normalization.canonical
    db_sanitizer.Mapping.Normalization.normalize db_sanitizer.Mapping.Normalization.strip
    db_sanitizer.Mapping.Registry.Accumulator.add
    db_sanitizer.Mapping.Registry.Accumulator.multiset_difference_count
    db_sanitizer.Mapping.Registry.Accumulator.upsert
    db_sanitizer.Mapping.Registry.Accumulator.upsert_all db_sanitizer.Mapping.Registry.is_digest
    db_sanitizer.Mapping.Registry.is_hex db_sanitizer.Mapping.Registry.lookup
    db_sanitizer.Mapping.Registry.validate_key db_sanitizer.Mapping.Registry.validate_keys
    db_sanitizer.Mapping.Tables.is_key db_sanitizer.Mapping.Tables.select_key
    db_sanitizer.Policy.Models.normalization_value db_sanitizer.Policy.Schema.find_column
    db_sanitizer.Verify.Aggregate.check_mapping_aggregate
    db_sanitizer.Verify.Aggregate.compare_columns db_sanitizer.Verify.Aggregate.expect
    db_sanitizer.Verify.Aggregate.expect_all db_sanitizer.Verify.Aggregate.push
    db_sanitizer.Verify.Aggregate.see_all db_sanitizer.Verify.Configured.aligned_rows
    db_sanitizer.Verify.Configured.cache_for db_sanitizer.Verify.Configured.split_row
    db_sanitizer.Verify.Configured.split_rows db_sanitizer.Verify.Configured.with_cache
    db_sanitizer.Verify.Connection.iter_column_values db_sanitizer.Verify.LookupCache.cached_lookup
    db_sanitizer.Verify.LookupCache.drop_oldest
    db_sanitizer.Verify.Mappings.check_mapping_by_primary_key
    db_sanitizer.Verify.Mappings.compare_mapping_values db_sanitizer.Verify.Mappings.compare_rows
    db_sanitizer.Verify.Mappings.compare_target db_sanitizer.Verify.Mappings.digest_for_check
    db_sanitizer.Verify.Mappings.expected_replacement db_sanitizer.Verify.Mappings.failed
    db_sanitizer.Verify.Nonintersection.check_source_target_hmac_nonintersection
    db_sanitizer.Verify.Nonintersection.check_groups db_sanitizer.Verify.Nonintersection.check_group
    db_sanitizer.Mapping.Registry.Accumulator.with_accumulator
    db_sanitizer.Verify.Nonintersection.see_group db_sanitizer.Verify.Nonintersection.see_columns
    db_sanitizer.Verify.Nonintersection.see_values
    db_sanitizer.Mapping.Registry.Accumulator.actual_distinct_count
    db_sanitizer.Mapping.Registry.Accumulator.source_intersection_count
    db_sanitizer.Mapping.Tables.has_key db_sanitizer.Verify.Nonintersection.push
    db_sanitizer.Verify.Keys.constraints_of db_sanitizer.Verify.Keys.constraint_of
    db_sanitizer.Verify.RowCounts.check_table_row_counts
    db_sanitizer.Verify.RowCounts.compare_tables db_sanitizer.Policy.Schema.table_refs
    db_sanitizer.Verify.RowCounts.compare_table db_sanitizer.Verify.Connection.table_row_count
    db_sanitizer.Verify.RowCounts.new_table_stats
    db_sanitizer.Verify.Statistics.check_configured_column_statistics
    db_sanitizer.Verify.Statistics.tally_columns db_sanitizer.Verify.Statistics.configured_columns
    db_sanitizer.Verify.Statistics.tally_column db_sanitizer.Verify.Connection.column_counts
    db_sanitizer.Verify.Statistics.new_column_stats db_sanitizer.Mapping.Registry.mapping_count
    db_sanitizer.Verify.Report.is_valid_run_report db_sanitizer.Policy.Names.is_run_id
    db_sanitizer.Policy.Names.is_check_id db_sanitizer.Policy.Names.is_hash
    db_sanitizer.Policy.Schema.tables_of db_sanitizer.Verify.Checks.check_no_single_placeholder
    db_sanitizer.Verify.Checks.check_source_schema_fingerprint
    db_sanitizer.Verify.ForeignKeys.count_orphans db_sanitizer.Verify.Keys.is_valid_constraint
    db_sanitizer.Verify.Report.is_valid_llm_stats db_sanitizer.Verify.Report.is_valid_table_report
verified = refl

verify_connections_iff_example :
    (inputs : Inputs) × (read_inputs source target ≡ ok inputs)
    × ((outcome_passed outcome ≡ true)
        ↔ IsSanitized unicode crypto secret fingerprint groups 10 source target context
            mapped_registry inputs outcome)
    × (mapped_registry.mappings ≡ mapped_registry.mappings)
verify_connections_iff_example =
    verify_connections_iff unicode crypto secret fingerprint groups 10 source target context 2
      mapped_registry outcome mapped_registry verified

-- The report is written.
abbrev write : RunReport → Result (Unit {0})
write r = ok tt

written :
    verify_and_write_report unicode crypto secret fingerprint groups 10 source target context 2
      write true mapped_registry
    ≡ (ok outcome, mapped_registry)
unfolding verify_and_write_report db_sanitizer.Verify.Runner.raise_for_failure
    db_sanitizer.Verify.Report.report_status
written = ground (arith, verified)

verify_and_write_report_returns_example :
    (write outcome.report ≡ ok tt)
    × (inputs : Inputs) × (read_inputs source target ≡ ok inputs)
    × IsSanitized unicode crypto secret fingerprint groups 10 source target context mapped_registry
        inputs outcome
verify_and_write_report_returns_example =
    verify_and_write_report_returns unicode crypto secret fingerprint groups 10 source target
      context 2 mapped_registry write outcome mapped_registry written
