-- ===== src/Verify/Runner/Passes.antt =====
-- When the outcome of `verify_connections` is a passed one.
use db_sanitizer.Base.{ℕ, ◌≡◌, ◌↔◌, refl, true, ◌&&◌, List, [], ◌∷◌, All, all, any, not, arith}
use mathlib.Core.Path.{subst}
use db_sanitizer.Base.Sort.{sort}
use db_sanitizer.Base.Text.{Text, text_eq_iff, text_eq_instance, text_ltb}
use db_sanitizer.Base.Dict.{lookup}
use db_sanitizer.Base.Eq.{elem, pair_eq}
use db_sanitizer.Mapping.HmacKey.{Bytes, Crypto}
use db_sanitizer.Mapping.Normalization.{Unicode}
use db_sanitizer.Mapping.Registry.{Registry}
use db_sanitizer.Policy.Models.{Key, Groups}
use db_sanitizer.Policy.Schema.{SchemaSnapshot, table_refs}
use db_sanitizer.Verify.Checks.{
  CheckResult, is_pass, is_required, is_blocking_failure, check_source_schema_fingerprint,
  check_no_single_placeholder,
}
use db_sanitizer.Verify.Checks.Verdicts.{keeps_variety, check_no_single_placeholder_iff}
use db_sanitizer.Verify.Connection.{
  Connection, count_query, unvalidated_foreign_keys, is_zero, table_row_count, column_counts,
}
use db_sanitizer.Verify.SchemaColumns.{types_of, check_schema_columns_types}
use db_sanitizer.Verify.SchemaColumns.Equal.{check_schema_columns_types_iff}
use db_sanitizer.Verify.RowCounts.Verdict.{same_rows, check_table_row_counts_iff}
use db_sanitizer.Verify.Statistics.{configured_items, configured_columns}
use db_sanitizer.Verify.Statistics.Equal.{keeps_counts, check_configured_column_statistics_iff}
use db_sanitizer.Verify.ForeignKeys.{foreign_key_orphan_count}
use db_sanitizer.Verify.ForeignKeys.Same.{SameForeignKeys, check_foreign_keys_iff}
use db_sanitizer.Verify.Keys.Integrity.{
  SameKeys, is_intact, keeps_values, check_primary_unique_constraints_iff,
}
use db_sanitizer.Verify.Configured.Columns.{IsMaskedItem, check_configured_mappings_iff}
use db_sanitizer.Verify.Nonintersection.Clean.{
  groups_clean, check_source_target_hmac_nonintersection_iff,
}
use db_sanitizer.Verify.Inputs.{Inputs}
use db_sanitizer.Verify.Inputs.Queried.{Queried}
use db_sanitizer.Verify.Report.Status.{report_status_iff}
use db_sanitizer.Verify.Runner.{
  VerificationContext, VerificationOutcome, outcome_passed, all_checks,
}
use db_sanitizer.Verify.Runner.Evidence.{Evidence}
use db_sanitizer.Verify.Runner.Severity.{
  check_table_row_counts-required, check_configured_column_statistics-required,
  check_foreign_keys-required, check_primary_unique_constraints-required,
  check_configured_mappings-required, check_source_target_hmac_nonintersection-required,
}

required-blocking :
    (checks : List CheckResult)
    → all is_required checks ≡ true
    → not (any is_blocking_failure checks) ≡ all is_pass checks
unfolding is_blocking_failure
required-blocking [] h = refl
required-blocking (c ∷ checks) h = ground (arith, required-blocking checks)

-- A report of required checks passes exactly when it has a check and all pass.
outcome_passed-all :
    (o : VerificationOutcome) (c : CheckResult) (checks : List CheckResult)
    → o.report.checks ≡ c ∷ checks
    → all is_required (c ∷ checks) ≡ true
    → outcome_passed o ≡ all is_pass (c ∷ checks)
outcome_passed-all o c checks h k =
    let status = report_status_iff o.report in
    let blocking = required-blocking (c ∷ checks) k in ground (arith, status, blocking)

module _ (u : Unicode) (crypto : Crypto) (secret : Bytes) (fingerprint : SchemaSnapshot → Text)
    (groups : Groups) (fetch_size : ℕ) (source target : Connection) (context : VerificationContext)
    (r : Registry) where
  -- What the nine checks demand of both databases, the policy and the mappings.
  pub record IsSanitized (inputs : Inputs) (o : VerificationOutcome) : Type 0 where
    pub fingerprint_kept : fingerprint inputs.source_schema ≡ context.source_schema_sha256
    pub columns_kept :
        (k : Key)
        → lookup k (types_of u inputs.source_schema) ≡ lookup k (types_of u inputs.target_schema)
    pub rows_kept :
        (all
            (λ table.
              elem table (table_refs inputs.target_schema)
              && same_rows (table_row_count source table) (table_row_count target table))
            (table_refs inputs.source_schema)
          && all
              (λ table. elem table (table_refs inputs.source_schema))
              (table_refs inputs.target_schema))
        ≡ true
    pub statistics_kept :
        all
          (keeps_counts
            (column_counts source)
            (column_counts target)
            inputs.source_schema
            inputs.target_schema)
          (configured_columns groups)
        ≡ true
    pub foreign_keys_kept : SameForeignKeys inputs.source_schema inputs.target_schema
    pub foreign_keys_validated : is_zero (count_query target unvalidated_foreign_keys) ≡ true
    pub no_orphans :
        all (λ f. is_zero (foreign_key_orphan_count target f)) inputs.target_schema.foreign_keys
        ≡ true
    pub keys_kept : SameKeys inputs.source_constraints inputs.target_constraints
    pub keys_intact : all (is_intact target) inputs.target_constraints ≡ true
    pub key_values_kept :
        all
          (keeps_values source target groups fetch_size inputs.target_constraints)
          inputs.source_constraints
        ≡ true
    pub masked :
        All
          (IsMaskedItem u crypto secret source target groups inputs.source_schema
            inputs.target_schema inputs.source_constraints inputs.target_constraints fetch_size r)
          (configured_items groups)
    pub no_source_value :
        groups_clean u crypto secret target inputs.target_schema fetch_size r.mappings
          (sort (λ a b. text_ltb a.0 b.0) groups)
        ≡ true
    pub variety_kept : all keeps_variety o.column_stats ≡ true

  module _ (finished_at : ℕ) (o : VerificationOutcome) (t : Registry)
      (e : Evidence u crypto secret fingerprint groups fetch_size source target context finished_at
        r o t)
      (q : Queried source target groups fetch_size e.inputs e.findings) where
    abbrev listed : List CheckResult
    listed =
        all_checks u crypto secret fingerprint groups fetch_size source target context finished_at
          e.inputs e.findings e.mappings e.hmacs.1

    listed-required : all is_required listed ≡ true
    unfolding check_source_schema_fingerprint check_schema_columns_types check_no_single_placeholder
    listed-required =
        let i = e.inputs in
        ground (
          arith,
          check_table_row_counts-required source target _ _ _ _ _ _ q.tables-ok,
          check_configured_column_statistics-required source target _ _ _ _ _ _ _ q.columns-ok,
          check_foreign_keys-required source target _ _ _ q.foreign_keys-ok,
          check_primary_unique_constraints-required source target i.source_schema i.target_schema _
              _ _ _ _ q.keys-ok,
          check_configured_mappings-required source target _ _ _ _ _ _ u crypto secret _ _ _
              e.mappings-ok,
          check_source_target_hmac_nonintersection-required source target i.source_schema
              i.target_schema groups [] [] fetch_size u crypto secret _ _ _ e.hmacs-ok,
        )

    -- The outcome passes exactly when what the checks demand holds.
    pub Evidence-IsSanitized : (outcome_passed o ≡ true) ↔ IsSanitized e.inputs o
    unfolding check_source_schema_fingerprint
    Evidence-IsSanitized =
        let i = e.inputs in
        let rows = check_table_row_counts_iff _ _ i.source_schema i.target_schema _ _ q.tables-ok in
        let columns =
          (check_configured_column_statistics_iff _ _ i.source_schema i.target_schema groups _ _
            q.columns-ok).1 in
        let types = check_schema_columns_types_iff u i.source_schema i.target_schema in
        let foreign =
          check_foreign_keys_iff target i.source_schema i.target_schema _ q.foreign_keys-ok in
        let keys =
          check_primary_unique_constraints_iff source target groups _ _ fetch_size _ q.keys-ok in
        let (mappings, same) =
          check_configured_mappings_iff u crypto secret source target groups _ _ _ _ fetch_size r _
            _ e.mappings-ok in
        let clean =
          subst
            (λ m.
              is_pass e.hmacs.1
              ≡ groups_clean u crypto secret target i.target_schema fetch_size m
                  (sort (λ a b. text_ltb a.0 b.0) groups))
            same
            (check_source_target_hmac_nonintersection_iff u crypto secret target i.target_schema
              fetch_size groups e.after_mappings e.after_hmacs _ _ e.hmacs-ok).0 in
        let variety = check_no_single_placeholder_iff e.findings.column_stats in
        let printed = text_eq_iff (fingerprint i.source_schema) context.source_schema_sha256 in
        let passes = outcome_passed-all o _ _ e.checks-listed listed-required in
        (
          (λ p. record {
            fingerprint_kept = printed.0 (ground arith);
            columns_kept = types.0 (ground arith);
            rows_kept = ground arith;
            statistics_kept = ground arith;
            foreign_keys_kept = (foreign.0 (ground arith)).0;
            foreign_keys_validated = (foreign.0 (ground arith)).1;
            no_orphans = (foreign.0 (ground arith)).2;
            keys_kept = (keys.0 (ground arith)).0;
            keys_intact = (keys.0 (ground arith)).1;
            key_values_kept = (keys.0 (ground arith)).2;
            masked = mappings.0 (ground arith);
            no_source_value = ground arith;
            variety_kept = ground (arith, e.column_stats-listed);
          }),
          (λ k.
              let a = printed.1 k.fingerprint_kept in
              let b = types.1 k.columns_kept in
              let c = foreign.1 (k.foreign_keys_kept, k.foreign_keys_validated, k.no_orphans) in
              let d = keys.1 (k.keys_kept, k.keys_intact, k.key_values_kept) in
              let f = mappings.1 k.masked in
              ground (
                arith, k.rows_kept, k.statistics_kept, k.no_source_value, k.variety_kept,
                e.column_stats-listed,
              )),
        )
