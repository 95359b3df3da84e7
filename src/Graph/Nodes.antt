-- ===== src/Graph/Nodes.antt =====
-- The other nodes of `_build_workflow` of db_sanitizer/graph.py, and their order.
use db_sanitizer.Base.{ℕ, false, Option, some, List, [], ◌∷◌, if◌then◌else◌}
use db_sanitizer.Base.Text.{Text, codes}
use db_sanitizer.Errors.{Result, ok, err}
use db_sanitizer.Exec.{Exec, pure, lift, ◌>>=◌, ◌>>◌}
use db_sanitizer.Graph.{
  RunState, WorkflowContext, Providers, run_metadata, state_string, llm_stats_from_state,
  started_at_from_state,
}
use db_sanitizer.Graph.Agent.{counts_of, sorted_groups, generate_replacements_agent_node}
use db_sanitizer.Greenmask.Config.{Tables, table_mapping}
use db_sanitizer.Mapping.HmacKey.{Crypto, hmac_key}
use db_sanitizer.Mapping.Normalization.{Unicode}
use db_sanitizer.Mapping.Registry.{Registry, initialize}
use db_sanitizer.Policy.Models.{Regex}
use db_sanitizer.Policy.Schema.{SchemaSnapshot}
use db_sanitizer.Policy.Validator.{validate_policy_against_schema}
use db_sanitizer.Postgres.Collector.{Source, collect_mapping_keys}
use db_sanitizer.Verify.Connection.{Connection}
use db_sanitizer.Verify.Report.{RunReport}
use db_sanitizer.Verify.Runner.{
  VerificationContext, VerificationOutcome, raise_for_failure, verify_and_write_report,
}

-- What the nodes call outside: libraries, databases, files, processes and clocks.
pub record Services : Type 0 where
  pub unicode : Unicode
  pub crypto : Crypto
  pub regex : Regex
  pub providers : Providers
  -- the ticks that the generation of a group takes
  pub duration : Text → ℕ
  pub source : Connection
  pub target : Connection
  -- the distinct values of a column of the source
  pub distinct_values : Source
  pub fingerprint : SchemaSnapshot → Text
  -- the files of Greenmask's configuration and of the mapper's, from the table mapping
  pub write_config : Tables → Result (Text × Text)
  -- the reset of the target and the runs of Greenmask, from both files: the ID of the dump
  pub dump_and_restore : Text → Text → Result Text
  pub fromisoformat : Text → Option ℕ
  pub finished_at : ℕ
  pub write_report : RunReport → Result (Unit {0})
  -- the sample of a demo
  pub write_sample : Result (Unit {0})

pub data NodeName : Type 0 where
  load_policy inspect_schema collect_keys generate_replacements : NodeName
  build_config dump_restore verify_report : NodeName

-- `add_edge` from `START` to `END`
abbrev pub edges : List NodeName
edges =
    load_policy ∷ inspect_schema ∷ collect_keys ∷ generate_replacements ∷ build_config
    ∷ dump_restore ∷ verify_report ∷ []

module _ (services : Services) (context : WorkflowContext) where
  -- `load_policy_node`
  unfoldable pub load_policy_node : RunState → Exec Registry RunState
  load_policy_node state = pure (record state { current_stage = codes "load_policy" })

  -- `inspect_schema_node`
  unfoldable pub inspect_schema_node : RunState → Exec Registry RunState
  inspect_schema_node state = do
    snapshot ← lift services.source.inspected
    lift (validate_policy_against_schema services.unicode snapshot context.policy)
    pure (record state {
      current_stage = codes "inspect_schema";
      schema_fingerprint = some (services.fingerprint snapshot);
    })

  -- `collect_mapping_keys_node`
  unfoldable pub collect_mapping_keys_node : RunState → Exec Registry RunState
  collect_mapping_keys_node state = do
    schema_fingerprint ← lift (state_string state.schema_fingerprint)
    key ← lift (hmac_key services.crypto context.runtime.hmac_key)
    initialize (run_metadata services.crypto context schema_fingerprint)
    collection ←
        collect_mapping_keys services.unicode services.crypto key services.distinct_values
          context.policy.run.collector_fetch_size context.policy.groups
    counts ← counts_of false (
        sorted_groups context services.unicode services.crypto services.regex services.providers
          services.duration)
    pure (record state {
      current_stage = codes "collect_mapping_keys";
      mapping_counts = some counts;
    })

  -- `build_greenmask_config_node`
  unfoldable pub build_greenmask_config_node : RunState → Exec Registry RunState
  build_greenmask_config_node state = do
    tables ← lift (table_mapping context.policy.groups)
    paths ← lift (services.write_config tables)
    pure (record state {
      current_stage = codes "build_greenmask_config";
      generated_config_path = some paths.0;
      mapper_config_path = some paths.1;
    })

  -- `dump_and_restore_node`
  unfoldable pub dump_and_restore_node : RunState → Exec Registry RunState
  dump_and_restore_node state = do
    config_path ← lift (state_string state.generated_config_path)
    mapper_config_path ← lift (state_string state.mapper_config_path)
    dump_id ← lift (services.dump_and_restore config_path mapper_config_path)
    pure (record state { current_stage = codes "dump_and_restore"; dump_id = some dump_id })

  -- The context of the verification that `_verify_and_report` makes from the state.
  unfoldable pub verification_context : RunState → Result VerificationContext
  verification_context state = elim (state_string (some state.run_id)) [
    | err e ↦ err e
    | ok run_id ↦ elim (state_string state.schema_fingerprint) [
      | err e ↦ err e
      | ok schema_fingerprint ↦ elim (started_at_from_state services.fromisoformat state) [
        | err e ↦ err e
        | ok started_at ↦ elim (llm_stats_from_state services.unicode state) [
          | err e ↦ err e
          | ok llm ↦ ok (record {
            run_id = run_id;
            policy_sha256 = context.policy_sha256;
            source_schema_sha256 = schema_fingerprint;
            started_at = started_at;
            llm = llm;
          })
        ]
      ]
    ]
  ]

  abbrev pub verified_run : VerificationContext → Exec Registry VerificationOutcome
  verified_run verification =
      verify_and_write_report services.unicode services.crypto context.runtime.hmac_key
        services.fingerprint context.policy.groups context.policy.run.verifier_fetch_size
        services.source services.target verification services.finished_at services.write_report
        false

  -- `_verify_and_report`
  unfoldable pub verify_and_report : RunState → Exec Registry VerificationOutcome
  verify_and_report state = do
    verification ← lift (verification_context state)
    initialize (run_metadata services.crypto context verification.source_schema_sha256)
    lift (hmac_key services.crypto context.runtime.hmac_key)
    outcome ← verified_run verification
    raise_for_failure outcome
    pure outcome

  -- `verify_and_report_node`
  unfoldable pub verify_and_report_node : RunState → Exec Registry RunState
  verify_and_report_node state = do
    outcome ← verify_and_report state
    lift (
        if context.policy.report.include_synthetic_demo_before_after
        then services.write_sample
        else ok tt)
    pure (record state { current_stage = codes "completed" })

  -- A node; `none` would mean that the rounds of a group did not suffice.
  unfoldable pub run_node : NodeName → RunState → Registry → Option (Result RunState × Registry)
  run_node load_policy state r = some (load_policy_node state r)
  run_node inspect_schema state r = some (inspect_schema_node state r)
  run_node collect_keys state r = some (collect_mapping_keys_node state r)
  run_node generate_replacements state r =
      generate_replacements_agent_node context services.unicode services.crypto services.regex
        services.providers services.duration state r
  run_node build_config state r = some (build_greenmask_config_node state r)
  run_node dump_restore state r = some (dump_and_restore_node state r)
  run_node verify_report state r = some (verify_and_report_node state r)
