-- ===== src/Verify/Runner.antt =====
-- db_sanitizer/verify/runner.py: all checks in order, and the report on them. The fingerprint of a
-- schema, the clock and the writing of the files are arguments; the paths of artifacts are left out.
pub mod Evidence
pub mod Severity
pub mod Passes
pub mod Outcome
use db_sanitizer.Base.{
  ℕ, Bool, true, false, not, Option, none, some, List, [], ◌∷◌, map, sum, filter, if◌then◌else◌,
}
use db_sanitizer.Base.Dict.{Dict, lookup, insert}
use db_sanitizer.Base.Sort.{sort}
use db_sanitizer.Base.Text.{Text, text_eq, text_ltb, text_eq_instance}
use db_sanitizer.Errors.{Result, ok, err, verification_error, unexpected}
use db_sanitizer.Exec.{Exec, pure, lift, raise_if, ◌>>=◌, ◌>>◌}
use db_sanitizer.Mapping.HmacKey.{Bytes, Crypto}
use db_sanitizer.Mapping.Normalization.{Unicode}
use db_sanitizer.Mapping.Registry.{Registry, mapping_count}
use db_sanitizer.Policy.Models.{Groups}
use db_sanitizer.Policy.Schema.{SchemaSnapshot}
use db_sanitizer.Verify.Checks.{
  CheckResult, ColumnStats, check_source_schema_fingerprint, check_no_single_placeholder,
}
use db_sanitizer.Verify.Connection.{Connection, table_row_count, column_counts}
use db_sanitizer.Verify.Inputs.{Inputs, Findings, read_inputs, query_checks}
use db_sanitizer.Verify.SchemaColumns.{check_schema_columns_types}
use db_sanitizer.Verify.RowCounts.{TableStats, check_table_row_counts}
use db_sanitizer.Verify.Statistics.{check_configured_column_statistics}
use db_sanitizer.Verify.ForeignKeys.{check_foreign_keys}
use db_sanitizer.Verify.Keys.{KeyConstraint, read_key_constraints, check_primary_unique_constraints}
use db_sanitizer.Verify.Configured.{check_configured_mappings}
use db_sanitizer.Verify.Nonintersection.{GroupHmacStats, check_source_target_hmac_nonintersection}
use db_sanitizer.Verify.Report.{
  LlmStats, TableReport, GroupReport, RunReport, RunStatus, passed, failed, is_valid_run_report,
  report_status,
}

pub record VerificationContext : Type 0 where
  pub run_id : Text
  pub policy_sha256 : Text
  pub source_schema_sha256 : Text
  pub started_at : ℕ
  pub llm : LlmStats

pub record VerificationOutcome : Type 0 where
  pub report : RunReport
  pub source_snapshot : SchemaSnapshot
  pub target_snapshot : SchemaSnapshot
  pub table_stats : List TableStats
  pub column_stats : List ColumnStats
  pub group_hmac_stats : List GroupHmacStats
  pub source_constraints : List KeyConstraint
  pub target_constraints : List KeyConstraint

abbrev pub is_passed : RunStatus → Bool
is_passed passed = true
is_passed failed = false

-- `VerificationOutcome.passed`
abbrev pub outcome_passed : VerificationOutcome → Bool
outcome_passed outcome = is_passed (report_status outcome.report)

-- `VerificationOutcome.raise_for_failure`
unfoldable pub raise_for_failure {ℓ} : {S : Type ℓ} → VerificationOutcome → Exec S (Unit {0})
raise_for_failure outcome = raise_if (not (outcome_passed outcome)) verification_error

-- `_table_report`
abbrev pub table_report : TableStats → TableReport
table_report stats = record {
  name = (stats.schema_name, stats.table);
  source_rows = stats.source_rows;
  target_rows = stats.target_rows;
  row_count_equal = stats.row_count_equal;
}

-- `hmac_by_group`
unfoldable pub hmac_by_group : List GroupHmacStats → Dict Text ℕ → Dict Text ℕ
hmac_by_group [] d = d
hmac_by_group (item ∷ stats) d = hmac_by_group stats (insert item.group_id item.target_distinct d)

abbrev pub distinct_or_zero : Option ℕ → ℕ
distinct_or_zero none = 0
distinct_or_zero (some n) = n

-- `_group_reports`, for the groups in order.
unfoldable pub reports_of :
    List ColumnStats → Dict Text ℕ → Groups → Exec Registry (List GroupReport)
reports_of column_stats by_group [] = pure []
reports_of column_stats by_group ((group_id, group) ∷ groups) = do
  count ← mapping_count group_id false
  reports ← reports_of column_stats by_group groups
  let stats = filter (λ item. text_eq item.group_id group_id) column_stats
  pure (
      record {
        id = group_id;
        entity_type = group.entity_type;
        mapping_count = count;
        distinct_source = count;
        distinct_target = distinct_or_zero (lookup group_id by_group);
        nulls_source = sum (map (λ item. item.source_nulls) stats);
        nulls_target = sum (map (λ item. item.target_nulls) stats);
      }
      ∷ reports)

abbrev pub group_reports :
    Groups → List ColumnStats → List GroupHmacStats → Exec Registry (List GroupReport)
group_reports groups column_stats group_hmac_stats =
    reports_of column_stats (hmac_by_group group_hmac_stats [])
      (sort (λ a b. text_ltb a.0 b.0) groups)

module _ (u : Unicode) (crypto : Crypto) (secret : Bytes) (fingerprint : SchemaSnapshot → Text)
    (groups : Groups) (fetch_size : ℕ) (source target : Connection) (context : VerificationContext)
    (finished_at : ℕ) where
  abbrev pub all_checks : Inputs → Findings → CheckResult → CheckResult → List CheckResult
  all_checks inputs findings mappings hmacs =
      check_source_schema_fingerprint (fingerprint inputs.source_schema)
        context.source_schema_sha256
      ∷ check_schema_columns_types u inputs.source_schema inputs.target_schema
      ∷ findings.tables
      ∷ findings.columns
      ∷ findings.foreign_keys
      ∷ findings.keys
      ∷ mappings
      ∷ hmacs
      ∷ check_no_single_placeholder findings.column_stats
      ∷ []

  abbrev pub new_report : Findings → List CheckResult → List GroupReport → RunReport
  new_report findings checks reports = record {
    run_id = context.run_id;
    started_at = context.started_at;
    finished_at = finished_at;
    policy_sha256 = context.policy_sha256;
    source_schema_sha256 = context.source_schema_sha256;
    llm = context.llm;
    tables = map table_report findings.table_stats;
    groups = reports;
    checks = checks;
  }

  -- The block of `verify_connections`.
  unfoldable pub run_checks : Exec Registry VerificationOutcome
  run_checks = do
    inputs ← lift (read_inputs source target)
    findings ← lift (query_checks source target groups fetch_size inputs)
    mappings ←
        check_configured_mappings u crypto secret source target groups inputs.source_schema
          inputs.target_schema inputs.source_constraints inputs.target_constraints fetch_size
    hmacs ←
        check_source_target_hmac_nonintersection u crypto secret target inputs.target_schema
          fetch_size groups
    reports ← group_reports groups findings.column_stats hmacs.0
    let report : RunReport =
        new_report findings (all_checks inputs findings mappings hmacs.1) reports
    raise_if (not (is_valid_run_report u report)) unexpected
    pure (record {
      report = report;
      source_snapshot = inputs.source_schema;
      target_snapshot = inputs.target_schema;
      table_stats = findings.table_stats;
      column_stats = findings.column_stats;
      group_hmac_stats = hmacs.0;
      source_constraints = inputs.source_constraints;
      target_constraints = inputs.target_constraints;
    })

  -- `verify_connections`: every error leaves it as a `VerificationError`.
  unfoldable pub verify_connections : Exec Registry VerificationOutcome
  verify_connections r =
      let (result, r') = run_checks r in
      elim result [ ok outcome ↦ (ok outcome, r') | err e ↦ (err verification_error, r') ]

  -- `verify_and_write_report`, with `write_report` as an argument.
  unfoldable pub verify_and_write_report :
      (RunReport → Result (Unit {0})) → Bool → Exec Registry VerificationOutcome
  verify_and_write_report write_report raise_on_failure = do
    outcome ← verify_connections
    lift (write_report outcome.report)
    if raise_on_failure then raise_for_failure outcome else pure tt
    pure outcome
