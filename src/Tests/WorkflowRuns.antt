-- ===== src/Tests/WorkflowRuns.antt =====
-- Runs of the workflow: whole, interrupted and resumed.
use db_sanitizer.Base.{
  ℕ, ◌≡◌, ◌≤◌, refl, sym, ap, ◌∙◌, Bool, true, false, Option, none, some, List, [], ◌∷◌, arith,
}
use db_sanitizer.Base.Text.{Text, codes}
use db_sanitizer.Errors.{ok}
use db_sanitizer.Graph.{RunState, run_metadata}
use db_sanitizer.Graph.Nodes.{
  NodeName, load_policy, inspect_schema, collect_keys, generate_replacements, build_config,
  dump_restore, verify_report, edges, run_node,
}
use db_sanitizer.Graph.Agent.{generate_replacements_agent_node}
use db_sanitizer.Graph.Workflow.{
  Checkpoint, check_resume_compatibility, initial_state, stored, run_sanitization,
}
use db_sanitizer.Graph.Workflow.Sessions.{done, Chain, end, link, Sessions-complete}
use db_sanitizer.Graph.Workflow.Resumed.{run_sanitization_resumed}
use db_sanitizer.Graph.Workflow.Verified.{IsVerified}
use db_sanitizer.Graph.Workflow.Proceeds.{IsResumable, Proceeded}
use db_sanitizer.Graph.Workflow.Completed.{
  run_sanitization-IsVerified, run_sanitization-IsResumable,
}
use db_sanitizer.Mapping.Registry.{Registry, empty}
use db_sanitizer.Mapping.Tables.{GenerationStats, MappingRecord}
use db_sanitizer.Tests.Samples.{crypto, people, row, hex, s2}
use db_sanitizer.Tests.Workflows.{services, context, engine, engine-IsEngine, run_from}

abbrev start : RunState
start = initial_state services context (codes "now")

abbrev inspected : RunState
inspected = record start { current_stage = codes "inspect_schema"; schema_fingerprint = some s2 }

abbrev collected : RunState
collected = record inspected {
  current_stage = codes "collect_mapping_keys";
  mapping_counts = some ((people, 1) ∷ []);
}

abbrev stats : ℕ → ℕ → ℕ → GenerationStats
stats batches items duration = record {
  batches = batches;
  accepted_items = items;
  rejected_items = items;
  duration = duration;
}

abbrev registry : GenerationStats → MappingRecord → Registry
registry generation_stats mapping = record {
  run_meta = run_metadata crypto context s2 ∷ [];
  mappings = mapping ∷ [];
  generation_stats = some generation_stats;
  work = [];
}

abbrev keys_collected : Registry
keys_collected = registry (stats 0 0 0) (row (hex (codes "a")) none none)

abbrev replacements_generated : Registry
replacements_generated =
    registry (stats 1 1 7) (row (hex (codes "a")) (some (codes "Ada")) (some (hex (codes "b"))))

abbrev generated : RunState
generated = record collected {
  current_stage = codes "generate_replacements_agent";
  llm = some (record {
    provider = codes "ollama";
    model = codes "m";
    batches = 1;
    accepted_items = 1;
    rejected_items = 1;
    duration = 7;
  });
}

abbrev built : RunState
built = record generated {
  current_stage = codes "build_greenmask_config";
  generated_config_path = some (codes "c");
  mapper_config_path = some (codes "m");
}

abbrev restored : RunState
restored = record built { current_stage = codes "dump_and_restore"; dump_id = some (codes "d") }

abbrev completed : RunState
completed = record restored { current_stage = codes "completed" }

load_runs :
    run_node services context load_policy start empty
    ≡ some (ok (record start { current_stage = codes "load_policy" }), empty)
unfolding run_node db_sanitizer.Graph.Nodes.load_policy_node
load_runs = refl

inspect_runs :
    run_node services context inspect_schema
      (record start { current_stage = codes "load_policy" })
      empty
    ≡ some (ok inspected, empty)
unfolding run_node db_sanitizer.Graph.Nodes.inspect_schema_node
    db_sanitizer.Policy.Validator.validate_policy_against_schema
    db_sanitizer.Policy.Validator.validate_groups db_sanitizer.Policy.Validator.validate_columns
    db_sanitizer.Policy.Validator.validate_column db_sanitizer.Policy.Schema.column_for
    db_sanitizer.Base.Text.text_eq db_sanitizer.Policy.Validator.validate_foreign_keys
    db_sanitizer.Policy.Validator.validate_foreign_key_coverage
    db_sanitizer.Policy.Validator.validate_columns_coverage db_sanitizer.Base.Dict.lookup
    db_sanitizer.Policy.Validator.group_membership db_sanitizer.Base.Dict.insert
inspect_runs = refl

collect_runs :
    run_node services context collect_keys inspected empty ≡ some (ok collected, keys_collected)
unfolding run_node db_sanitizer.Graph.Nodes.collect_mapping_keys_node
    db_sanitizer.Graph.state_string db_sanitizer.Mapping.HmacKey.hmac_key
    db_sanitizer.Mapping.Registry.initialize db_sanitizer.Mapping.Registry.validate_metadata
    db_sanitizer.Mapping.HmacKey.fingerprint db_sanitizer.Exec.transaction
    db_sanitizer.Postgres.Collector.collect_mapping_keys
    db_sanitizer.Postgres.Collector.collect_columns db_sanitizer.Postgres.Collector.collect_column
    db_sanitizer.Postgres.Collector.collect_batches db_sanitizer.Postgres.Collector.fetch_batches
    db_sanitizer.Postgres.Collector.collect_batch db_sanitizer.Postgres.Collector.keys_of
    db_sanitizer.Postgres.Collector.key_of db_sanitizer.Mapping.Normalization.normalize
    db_sanitizer.Base.Text.text_eq db_sanitizer.Policy.Models.normalization_value
    db_sanitizer.Mapping.Normalization.strip db_sanitizer.Mapping.HmacKey.digest
    db_sanitizer.Mapping.HmacKey.encode db_sanitizer.Graph.Nodes.load_policy_node
    db_sanitizer.Graph.Nodes.inspect_schema_node
    db_sanitizer.Policy.Validator.validate_policy_against_schema
    db_sanitizer.Policy.Validator.validate_groups db_sanitizer.Policy.Validator.validate_columns
    db_sanitizer.Policy.Validator.validate_column db_sanitizer.Policy.Schema.column_for
    db_sanitizer.Policy.Validator.validate_foreign_keys
    db_sanitizer.Policy.Validator.validate_foreign_key_coverage
    db_sanitizer.Policy.Validator.validate_columns_coverage db_sanitizer.Base.Dict.lookup
    db_sanitizer.Policy.Validator.group_membership db_sanitizer.Base.Dict.insert
    db_sanitizer.Mapping.Registry.insert_source_keys db_sanitizer.Mapping.Registry.validate_keys
    db_sanitizer.Mapping.Registry.validate_key db_sanitizer.Mapping.Registry.insert_all
    db_sanitizer.Graph.Agent.counts_of db_sanitizer.Base.Sort.sort
    db_sanitizer.Base.Sort.sort_insert db_sanitizer.Mapping.Registry.mapping_count
    generate_replacements_agent_node db_sanitizer.Graph.Agent.begin_agent
    db_sanitizer.Graph.provider db_sanitizer.Graph.Agent.run_agent
    db_sanitizer.Llm.Generator.new_generator db_sanitizer.Graph.Agent.generate_groups
    db_sanitizer.Llm.Generator.Batches.generate_group db_sanitizer.Llm.Generator.Batches.group_loop
    db_sanitizer.Mapping.Tables.insert_or_ignore db_sanitizer.Mapping.Registry.list_unassigned
    db_sanitizer.Mapping.Tables.pending_keys db_sanitizer.Llm.Generator.Batches.generate_batch
    db_sanitizer.Llm.Generator.Batches.tries db_sanitizer.Llm.Generator.Batches.attempt
    db_sanitizer.Llm.Generator.Batches.collect db_sanitizer.Mapping.Registry.record_generation_stats
    db_sanitizer.Llm.Generator.Batches.answer db_sanitizer.Llm.Models.model_validate
    db_sanitizer.Llm.Generator.Batches.valid_replacements db_sanitizer.Llm.Generator.is_valid_value
    db_sanitizer.Llm.Generator.Batches.replacement_hmac db_sanitizer.Llm.Generator.Batches.is_taken
    db_sanitizer.Mapping.Registry.has_source_key db_sanitizer.Mapping.Registry.has_replacement_hmac
    db_sanitizer.Mapping.Tables.holds db_sanitizer.Llm.Generator.Batches.accept_all
    db_sanitizer.Llm.Generator.Batches.finish db_sanitizer.Llm.Generator.Batches.zip_assignments
    db_sanitizer.Mapping.Registry.Assign.assign_replacements db_sanitizer.Mapping.Tables.select_key
    db_sanitizer.Mapping.Tables.update_replacement db_sanitizer.Graph.Agent.finish_agent
    db_sanitizer.Mapping.Registry.generation_stats db_sanitizer.Graph.Agent.llm_evidence
    db_sanitizer.Graph.Nodes.build_greenmask_config_node db_sanitizer.Greenmask.Config.table_mapping
    db_sanitizer.Greenmask.Config.add_groups db_sanitizer.Greenmask.Config.add_columns
    db_sanitizer.Greenmask.Config.add_column db_sanitizer.Graph.Nodes.dump_and_restore_node
    db_sanitizer.Graph.Nodes.verify_and_report_node db_sanitizer.Graph.Nodes.verify_and_report
    db_sanitizer.Graph.Nodes.verification_context db_sanitizer.Graph.started_at_from_state
    db_sanitizer.Graph.llm_stats_from_state db_sanitizer.Verify.Report.is_valid_llm_stats
    db_sanitizer.Verify.Runner.verify_and_write_report db_sanitizer.Verify.Runner.verify_connections
    db_sanitizer.Verify.Runner.run_checks db_sanitizer.Verify.Inputs.read_inputs
    db_sanitizer.Verify.Keys.read_key_constraints db_sanitizer.Verify.Keys.constraints_of
    db_sanitizer.Verify.Keys.constraint_of db_sanitizer.Policy.Names.is_identifier
    db_sanitizer.Verify.Inputs.query_checks db_sanitizer.Verify.RowCounts.check_table_row_counts
    db_sanitizer.Verify.RowCounts.compare_tables db_sanitizer.Policy.Schema.table_refs
    db_sanitizer.Verify.RowCounts.compare_table db_sanitizer.Verify.Connection.table_row_count
    db_sanitizer.Verify.RowCounts.new_table_stats
    db_sanitizer.Verify.Statistics.check_configured_column_statistics
    db_sanitizer.Verify.Statistics.tally_columns db_sanitizer.Verify.Statistics.configured_columns
    db_sanitizer.Verify.Statistics.configured_items db_sanitizer.Verify.Statistics.items_of
    db_sanitizer.Verify.Statistics.tally_column db_sanitizer.Verify.Connection.column_counts
    db_sanitizer.Verify.Statistics.new_column_stats
    db_sanitizer.Verify.ForeignKeys.check_foreign_keys db_sanitizer.Verify.Connection.sum_results
    db_sanitizer.Verify.ForeignKeys.foreign_key_orphan_count
    db_sanitizer.Verify.Keys.check_primary_unique_constraints db_sanitizer.Verify.Keys.key_counts
    db_sanitizer.Verify.Keys.duplicate_key_group_count
    db_sanitizer.Verify.Keys.primary_key_null_count db_sanitizer.Verify.Keys.key_value_mismatches
    db_sanitizer.Verify.Keys.is_shared_primary_key
    db_sanitizer.Verify.Keys.primary_key_is_configured db_sanitizer.Policy.Models.is_valid_column
    db_sanitizer.Policy.Models.group_for_column db_sanitizer.Verify.Keys.ordered_key_comparison
    db_sanitizer.Verify.Connection.ordered_select_statement
    db_sanitizer.Verify.Connection.executed_cursor
    db_sanitizer.Verify.Configured.check_configured_mappings
    db_sanitizer.Verify.Configured.check_items db_sanitizer.Verify.Configured.check_item
    db_sanitizer.Verify.Configured.alignment_key db_sanitizer.Verify.Configured.primary_keys
    db_sanitizer.Verify.Configured.compare_column db_sanitizer.Verify.Configured.aligned_rows
    db_sanitizer.Verify.Configured.split_rows db_sanitizer.Verify.Configured.split_row
    db_sanitizer.Verify.Configured.with_cache
    db_sanitizer.Verify.Mappings.check_mapping_by_primary_key
    db_sanitizer.Verify.Mappings.compare_rows db_sanitizer.Verify.Mappings.key_eq
    db_sanitizer.Verify.Mappings.compare_mapping_values
    db_sanitizer.Verify.Mappings.expected_replacement db_sanitizer.Verify.Mappings.digest_for_check
    db_sanitizer.Verify.LookupCache.cached_lookup db_sanitizer.Verify.Configured.cache_for
    db_sanitizer.Mapping.Registry.lookup
    db_sanitizer.Verify.Nonintersection.check_source_target_hmac_nonintersection
    db_sanitizer.Verify.Nonintersection.check_groups db_sanitizer.Verify.Nonintersection.check_group
    db_sanitizer.Mapping.Registry.Accumulator.with_accumulator
    db_sanitizer.Verify.Nonintersection.see_group db_sanitizer.Verify.Nonintersection.see_columns
    db_sanitizer.Verify.Connection.iter_column_values db_sanitizer.Verify.Nonintersection.see_values
    db_sanitizer.Verify.Nonintersection.push db_sanitizer.Mapping.Registry.Accumulator.add
    db_sanitizer.Mapping.Registry.Accumulator.actual_distinct_count
    db_sanitizer.Mapping.Registry.Accumulator.source_intersection_count
    db_sanitizer.Verify.Runner.reports_of db_sanitizer.Verify.Report.is_valid_run_report
    db_sanitizer.Policy.Names.is_run_id db_sanitizer.Policy.Names.is_hash
    db_sanitizer.Policy.Names.is_check_id db_sanitizer.Verify.Checks.check_source_schema_fingerprint
    db_sanitizer.Verify.SchemaColumns.check_schema_columns_types
    db_sanitizer.Verify.Checks.check_no_single_placeholder
    db_sanitizer.Verify.Runner.raise_for_failure db_sanitizer.Verify.Report.report_status
    db_sanitizer.Verify.SchemaColumns.types_of db_sanitizer.Verify.SchemaColumns.columns_dict
    db_sanitizer.Verify.SchemaColumns.canonical_type db_sanitizer.Verify.SchemaColumns.join_words
    db_sanitizer.Verify.SchemaColumns.split_words db_sanitizer.Base.Counter.excess
    db_sanitizer.Verify.Keys.compare_keys db_sanitizer.Verify.Mappings.failed
    db_sanitizer.Verify.Mappings.compare_target
collect_runs = refl

generate_runs :
    run_node services context generate_replacements collected keys_collected
    ≡ some (ok generated, replacements_generated)
unfolding run_node generate_replacements_agent_node db_sanitizer.Graph.Agent.begin_agent
    db_sanitizer.Graph.state_string db_sanitizer.Mapping.HmacKey.hmac_key
    db_sanitizer.Graph.provider db_sanitizer.Mapping.Registry.initialize
    db_sanitizer.Mapping.Registry.validate_metadata db_sanitizer.Mapping.HmacKey.fingerprint
    db_sanitizer.Base.Text.text_eq db_sanitizer.Exec.transaction db_sanitizer.Graph.Agent.run_agent
    db_sanitizer.Llm.Generator.new_generator db_sanitizer.Graph.Agent.generate_groups
    db_sanitizer.Base.Sort.sort db_sanitizer.Base.Sort.sort_insert
    db_sanitizer.Llm.Generator.Batches.generate_group db_sanitizer.Llm.Generator.Batches.group_loop
    db_sanitizer.Mapping.Registry.list_unassigned db_sanitizer.Mapping.Tables.pending_keys
    db_sanitizer.Llm.Generator.Batches.generate_batch db_sanitizer.Llm.Generator.Batches.tries
    db_sanitizer.Llm.Generator.Batches.attempt db_sanitizer.Llm.Generator.Batches.collect
    db_sanitizer.Mapping.Registry.record_generation_stats db_sanitizer.Llm.Generator.Batches.answer
    db_sanitizer.Llm.Models.model_validate db_sanitizer.Llm.Generator.Batches.valid_replacements
    db_sanitizer.Llm.Generator.is_valid_value db_sanitizer.Llm.Generator.Batches.replacement_hmac
    db_sanitizer.Mapping.Normalization.normalize db_sanitizer.Policy.Models.normalization_value
    db_sanitizer.Mapping.Normalization.strip db_sanitizer.Mapping.HmacKey.digest
    db_sanitizer.Mapping.HmacKey.encode db_sanitizer.Llm.Generator.Batches.is_taken
    db_sanitizer.Mapping.Registry.has_source_key db_sanitizer.Mapping.Registry.validate_key
    db_sanitizer.Mapping.Tables.has_key db_sanitizer.Mapping.Registry.has_replacement_hmac
    db_sanitizer.Mapping.Tables.holds db_sanitizer.Llm.Generator.Batches.accept_all
    db_sanitizer.Llm.Generator.Batches.finish db_sanitizer.Llm.Generator.Batches.zip_assignments
    db_sanitizer.Mapping.Registry.Assign.assign_replacements db_sanitizer.Mapping.Tables.select_key
    db_sanitizer.Mapping.Tables.update_replacement db_sanitizer.Graph.Agent.finish_agent
    db_sanitizer.Mapping.Registry.generation_stats db_sanitizer.Graph.Agent.counts_of
    db_sanitizer.Mapping.Registry.mapping_count db_sanitizer.Graph.Agent.llm_evidence
generate_runs = refl

build_runs :
    run_node services context build_config generated replacements_generated
    ≡ some (ok built, replacements_generated)
unfolding run_node db_sanitizer.Graph.Nodes.build_greenmask_config_node
    db_sanitizer.Greenmask.Config.table_mapping db_sanitizer.Greenmask.Config.add_groups
    db_sanitizer.Greenmask.Config.add_columns db_sanitizer.Greenmask.Config.add_column
    db_sanitizer.Base.Dict.lookup
build_runs = refl

dump_runs :
    run_node services context dump_restore built replacements_generated
    ≡ some (ok restored, replacements_generated)
unfolding run_node db_sanitizer.Graph.Nodes.dump_and_restore_node db_sanitizer.Graph.state_string
dump_runs = refl

verify_runs :
    run_node services context verify_report restored replacements_generated
    ≡ some (ok completed, replacements_generated)
unfolding run_node db_sanitizer.Graph.Nodes.load_policy_node
    db_sanitizer.Graph.Nodes.inspect_schema_node
    db_sanitizer.Policy.Validator.validate_policy_against_schema
    db_sanitizer.Policy.Validator.validate_groups db_sanitizer.Policy.Validator.validate_columns
    db_sanitizer.Policy.Validator.validate_column db_sanitizer.Policy.Schema.column_for
    db_sanitizer.Base.Text.text_eq db_sanitizer.Policy.Validator.validate_foreign_keys
    db_sanitizer.Policy.Validator.validate_foreign_key_coverage
    db_sanitizer.Policy.Validator.validate_columns_coverage db_sanitizer.Base.Dict.lookup
    db_sanitizer.Policy.Validator.group_membership db_sanitizer.Base.Dict.insert
    db_sanitizer.Graph.Nodes.collect_mapping_keys_node db_sanitizer.Graph.state_string
    db_sanitizer.Mapping.HmacKey.hmac_key db_sanitizer.Mapping.Registry.initialize
    db_sanitizer.Mapping.Registry.validate_metadata db_sanitizer.Mapping.HmacKey.fingerprint
    db_sanitizer.Exec.transaction db_sanitizer.Postgres.Collector.collect_mapping_keys
    db_sanitizer.Postgres.Collector.collect_columns db_sanitizer.Postgres.Collector.collect_column
    db_sanitizer.Postgres.Collector.collect_batches db_sanitizer.Postgres.Collector.fetch_batches
    db_sanitizer.Postgres.Collector.collect_batch db_sanitizer.Postgres.Collector.keys_of
    db_sanitizer.Postgres.Collector.key_of db_sanitizer.Mapping.Normalization.normalize
    db_sanitizer.Policy.Models.normalization_value db_sanitizer.Mapping.Normalization.strip
    db_sanitizer.Mapping.HmacKey.digest db_sanitizer.Mapping.HmacKey.encode
    db_sanitizer.Mapping.Registry.insert_source_keys db_sanitizer.Mapping.Registry.validate_keys
    db_sanitizer.Mapping.Registry.validate_key db_sanitizer.Mapping.Registry.insert_all
    db_sanitizer.Graph.Agent.counts_of db_sanitizer.Base.Sort.sort
    db_sanitizer.Base.Sort.sort_insert db_sanitizer.Mapping.Registry.mapping_count
    generate_replacements_agent_node db_sanitizer.Graph.Agent.begin_agent
    db_sanitizer.Graph.provider db_sanitizer.Graph.Agent.run_agent
    db_sanitizer.Llm.Generator.new_generator db_sanitizer.Graph.Agent.generate_groups
    db_sanitizer.Llm.Generator.Batches.generate_group db_sanitizer.Llm.Generator.Batches.group_loop
    db_sanitizer.Mapping.Tables.insert_or_ignore db_sanitizer.Mapping.Registry.list_unassigned
    db_sanitizer.Mapping.Tables.pending_keys db_sanitizer.Llm.Generator.Batches.generate_batch
    db_sanitizer.Llm.Generator.Batches.tries db_sanitizer.Llm.Generator.Batches.attempt
    db_sanitizer.Llm.Generator.Batches.collect db_sanitizer.Mapping.Registry.record_generation_stats
    db_sanitizer.Llm.Generator.Batches.answer db_sanitizer.Llm.Models.model_validate
    db_sanitizer.Llm.Generator.Batches.valid_replacements db_sanitizer.Llm.Generator.is_valid_value
    db_sanitizer.Llm.Generator.Batches.replacement_hmac db_sanitizer.Llm.Generator.Batches.is_taken
    db_sanitizer.Mapping.Registry.has_source_key db_sanitizer.Mapping.Registry.has_replacement_hmac
    db_sanitizer.Mapping.Tables.holds db_sanitizer.Llm.Generator.Batches.accept_all
    db_sanitizer.Llm.Generator.Batches.finish db_sanitizer.Llm.Generator.Batches.zip_assignments
    db_sanitizer.Mapping.Registry.Assign.assign_replacements db_sanitizer.Mapping.Tables.select_key
    db_sanitizer.Mapping.Tables.update_replacement db_sanitizer.Graph.Agent.finish_agent
    db_sanitizer.Mapping.Registry.generation_stats db_sanitizer.Graph.Agent.llm_evidence
    db_sanitizer.Graph.Nodes.build_greenmask_config_node db_sanitizer.Greenmask.Config.table_mapping
    db_sanitizer.Greenmask.Config.add_groups db_sanitizer.Greenmask.Config.add_columns
    db_sanitizer.Greenmask.Config.add_column db_sanitizer.Graph.Nodes.dump_and_restore_node
    db_sanitizer.Graph.Nodes.verify_and_report_node db_sanitizer.Graph.Nodes.verify_and_report
    db_sanitizer.Graph.Nodes.verification_context db_sanitizer.Graph.started_at_from_state
    db_sanitizer.Graph.llm_stats_from_state db_sanitizer.Verify.Report.is_valid_llm_stats
    db_sanitizer.Verify.Runner.verify_and_write_report db_sanitizer.Verify.Runner.verify_connections
    db_sanitizer.Verify.Runner.run_checks db_sanitizer.Verify.Inputs.read_inputs
    db_sanitizer.Verify.Keys.read_key_constraints db_sanitizer.Verify.Keys.constraints_of
    db_sanitizer.Verify.Keys.constraint_of db_sanitizer.Policy.Names.is_identifier
    db_sanitizer.Verify.Inputs.query_checks db_sanitizer.Verify.RowCounts.check_table_row_counts
    db_sanitizer.Verify.RowCounts.compare_tables db_sanitizer.Policy.Schema.table_refs
    db_sanitizer.Verify.RowCounts.compare_table db_sanitizer.Verify.Connection.table_row_count
    db_sanitizer.Verify.RowCounts.new_table_stats
    db_sanitizer.Verify.Statistics.check_configured_column_statistics
    db_sanitizer.Verify.Statistics.tally_columns db_sanitizer.Verify.Statistics.configured_columns
    db_sanitizer.Verify.Statistics.configured_items db_sanitizer.Verify.Statistics.items_of
    db_sanitizer.Verify.Statistics.tally_column db_sanitizer.Verify.Connection.column_counts
    db_sanitizer.Verify.Statistics.new_column_stats
    db_sanitizer.Verify.ForeignKeys.check_foreign_keys db_sanitizer.Verify.Connection.sum_results
    db_sanitizer.Verify.ForeignKeys.foreign_key_orphan_count
    db_sanitizer.Verify.Keys.check_primary_unique_constraints db_sanitizer.Verify.Keys.key_counts
    db_sanitizer.Verify.Keys.duplicate_key_group_count
    db_sanitizer.Verify.Keys.primary_key_null_count db_sanitizer.Verify.Keys.key_value_mismatches
    db_sanitizer.Verify.Keys.is_shared_primary_key
    db_sanitizer.Verify.Keys.primary_key_is_configured db_sanitizer.Policy.Models.is_valid_column
    db_sanitizer.Policy.Models.group_for_column db_sanitizer.Verify.Keys.ordered_key_comparison
    db_sanitizer.Verify.Connection.ordered_select_statement
    db_sanitizer.Verify.Connection.executed_cursor
    db_sanitizer.Verify.Configured.check_configured_mappings
    db_sanitizer.Verify.Configured.check_items db_sanitizer.Verify.Configured.check_item
    db_sanitizer.Verify.Configured.alignment_key db_sanitizer.Verify.Configured.primary_keys
    db_sanitizer.Verify.Configured.compare_column db_sanitizer.Verify.Configured.aligned_rows
    db_sanitizer.Verify.Configured.split_rows db_sanitizer.Verify.Configured.split_row
    db_sanitizer.Verify.Configured.with_cache
    db_sanitizer.Verify.Mappings.check_mapping_by_primary_key
    db_sanitizer.Verify.Mappings.compare_rows db_sanitizer.Verify.Mappings.key_eq
    db_sanitizer.Verify.Mappings.compare_mapping_values
    db_sanitizer.Verify.Mappings.expected_replacement db_sanitizer.Verify.Mappings.digest_for_check
    db_sanitizer.Verify.LookupCache.cached_lookup db_sanitizer.Verify.Configured.cache_for
    db_sanitizer.Mapping.Registry.lookup
    db_sanitizer.Verify.Nonintersection.check_source_target_hmac_nonintersection
    db_sanitizer.Verify.Nonintersection.check_groups db_sanitizer.Verify.Nonintersection.check_group
    db_sanitizer.Mapping.Registry.Accumulator.with_accumulator
    db_sanitizer.Verify.Nonintersection.see_group db_sanitizer.Verify.Nonintersection.see_columns
    db_sanitizer.Verify.Connection.iter_column_values db_sanitizer.Verify.Nonintersection.see_values
    db_sanitizer.Verify.Nonintersection.push db_sanitizer.Mapping.Registry.Accumulator.add
    db_sanitizer.Mapping.Registry.Accumulator.actual_distinct_count
    db_sanitizer.Mapping.Registry.Accumulator.source_intersection_count
    db_sanitizer.Verify.Runner.reports_of db_sanitizer.Verify.Report.is_valid_run_report
    db_sanitizer.Policy.Names.is_run_id db_sanitizer.Policy.Names.is_hash
    db_sanitizer.Policy.Names.is_check_id db_sanitizer.Verify.Checks.check_source_schema_fingerprint
    db_sanitizer.Verify.SchemaColumns.check_schema_columns_types
    db_sanitizer.Verify.Checks.check_no_single_placeholder
    db_sanitizer.Verify.Runner.raise_for_failure db_sanitizer.Verify.Report.report_status
    db_sanitizer.Verify.SchemaColumns.types_of db_sanitizer.Verify.SchemaColumns.columns_dict
    db_sanitizer.Verify.SchemaColumns.canonical_type db_sanitizer.Verify.SchemaColumns.join_words
    db_sanitizer.Verify.SchemaColumns.split_words db_sanitizer.Base.Counter.excess
    db_sanitizer.Verify.Keys.compare_keys db_sanitizer.Verify.Mappings.failed
    db_sanitizer.Verify.Mappings.compare_target
verify_runs = refl

abbrev first : Checkpoint
first = record { next = edges; state = start }

abbrev finished : Checkpoint
finished = record { next = []; state = completed }

whole_chain : Chain services context engine edges start empty completed replacements_generated
whole_chain = link load_runs (
    link inspect_runs (
      link collect_runs
        (link generate_runs (link build_runs (link dump_runs (link verify_runs end))))))

-- The nodes that are left after the keys are collected.
abbrev stopped : Checkpoint
stopped = record {
  next = generate_replacements ∷ build_config ∷ dump_restore ∷ verify_report ∷ [];
  state = collected;
}

first_session :
    engine (collect_keys ∷ []) first empty ≡ some (ok collected, (stopped, keys_collected))
unfolding run_from
first_session = ground (arith, load_runs, inspect_runs, collect_runs)

whole_invoked : engine [] first empty ≡ some (ok completed, (finished, replacements_generated))
whole_invoked =
    Sessions-complete services context engine engine-IsEngine first first empty empty
      replacements_generated completed whole_chain done

whole_run :
    run_sanitization services context engine false (codes "now") false [] none empty
    ≡ some (ok completed, (some finished, replacements_generated))
unfolding run_sanitization
whole_run = ap (stored services context) whole_invoked

run_sanitization-IsVerified_example : IsVerified services context completed replacements_generated
run_sanitization-IsVerified_example =
    run_sanitization-IsVerified services context engine engine-IsEngine false false (codes "now") []
      none finished empty replacements_generated completed tt whole_run refl

interrupted_run :
    run_sanitization services context engine false
      (codes "now")
      false
      (collect_keys ∷ [])
      none
      empty
    ≡ some (ok collected, (some stopped, keys_collected))
unfolding run_sanitization
interrupted_run = ap (stored services context) first_session

compatible :
    check_resume_compatibility services context true stopped.state keys_collected
    ≡ (ok tt, keys_collected)
unfolding check_resume_compatibility db_sanitizer.Graph.state_string db_sanitizer.Base.Text.text_eq
    db_sanitizer.Graph.Workflow.check_schema db_sanitizer.Mapping.Registry.initialize
    db_sanitizer.Mapping.Registry.validate_metadata db_sanitizer.Mapping.HmacKey.fingerprint
    db_sanitizer.Exec.transaction
compatible = refl

run_sanitization_resumed_example :
    run_sanitization services context engine true
      (codes "later")
      true
      []
      (some stopped)
      keys_collected
    ≡ some (ok completed, (some finished, replacements_generated))
run_sanitization_resumed_example =
    run_sanitization_resumed services context engine engine-IsEngine (codes "now") (codes "later")
      false true (collect_keys ∷ []) stopped empty keys_collected replacements_generated completed
      collected whole_chain interrupted_run (λ p. ground arith) compatible

run_sanitization-IsResumable_example :
    IsResumable (some stopped) × Proceeded services context false none (some stopped) (ok collected)
run_sanitization-IsResumable_example =
    run_sanitization-IsResumable services context engine engine-IsEngine false false (codes "now")
      (collect_keys ∷ []) none (some stopped) empty keys_collected (ok collected) tt interrupted_run
