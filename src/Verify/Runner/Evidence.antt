-- ===== src/Verify/Runner/Evidence.antt =====
-- What `verify_connections` has run when it returns.
use db_sanitizer.Base.{ℕ, ◌≡◌, ap, ◌∙◌, List, arith, inl, inr}
use db_sanitizer.Base.Text.{Text}
use db_sanitizer.Errors.{ok, Result-cases}
use db_sanitizer.Mapping.HmacKey.{Bytes, Crypto}
use db_sanitizer.Mapping.Normalization.{Unicode}
use db_sanitizer.Mapping.Registry.{Registry}
use db_sanitizer.Policy.Models.{Groups}
use db_sanitizer.Policy.Schema.{SchemaSnapshot}
use db_sanitizer.Verify.Checks.{CheckResult}
use db_sanitizer.Verify.Connection.{Connection}
use db_sanitizer.Verify.Configured.{check_configured_mappings}
use db_sanitizer.Verify.Nonintersection.{GroupHmacStats, check_source_target_hmac_nonintersection}
use db_sanitizer.Verify.Inputs.{Inputs, Findings, read_inputs, query_checks}
use db_sanitizer.Verify.Report.{GroupReport}
use db_sanitizer.Verify.Runner.{
  VerificationContext, VerificationOutcome, group_reports, all_checks, run_checks,
  verify_connections,
}

module _ (u : Unicode) (crypto : Crypto) (secret : Bytes) (fingerprint : SchemaSnapshot → Text)
    (groups : Groups) (fetch_size : ℕ) (source target : Connection) (context : VerificationContext)
    (finished_at : ℕ) (r : Registry) where
  -- The answers behind an outcome, and the registries after each step that uses it.
  pub record Evidence (o : VerificationOutcome) (t : Registry) : Type 0 where
    pub inputs : Inputs
    pub findings : Findings
    pub mappings : CheckResult
    pub hmacs : List GroupHmacStats × CheckResult
    pub reports : List GroupReport
    pub after_mappings : Registry
    pub after_hmacs : Registry
    pub inputs-ok : read_inputs source target ≡ ok inputs
    pub findings-ok : query_checks source target groups fetch_size inputs ≡ ok findings
    pub mappings-ok :
        check_configured_mappings u crypto secret source target groups inputs.source_schema
          inputs.target_schema inputs.source_constraints inputs.target_constraints fetch_size r
        ≡ (ok mappings, after_mappings)
    pub hmacs-ok :
        check_source_target_hmac_nonintersection u crypto secret target inputs.target_schema
          fetch_size groups after_mappings
        ≡ (ok hmacs, after_hmacs)
    pub reports-ok :
        group_reports groups findings.column_stats hmacs.0 after_hmacs ≡ (ok reports, t)
    pub checks-listed :
        o.report.checks
        ≡ all_checks u crypto secret fingerprint groups fetch_size source target context finished_at
            inputs findings mappings hmacs.1
    pub column_stats-listed : o.column_stats ≡ findings.column_stats

  run_checks-Evidence :
      (o : VerificationOutcome) (t : Registry)
      → run_checks u crypto secret fingerprint groups fetch_size source target context finished_at r
        ≡ (ok o, t)
      → Evidence o t
  unfolding run_checks
  run_checks-Evidence o t h = elim (Result-cases (read_inputs source target)) [
    | inr (e, p) ↦ absurd (ground arith)
    | inl (inputs, p) ↦ elim (Result-cases (query_checks source target groups fetch_size inputs)) [
      | inr (e, q) ↦ absurd (ground arith)
      | inl (findings, q) ↦
          (let mapped =
              check_configured_mappings u crypto secret source target groups inputs.source_schema
                inputs.target_schema inputs.source_constraints inputs.target_constraints fetch_size
                r in
            elim (Result-cases mapped.0) [
              | inr (e, x) ↦ absurd (ground arith)
              | inl (mappings, x) ↦
                  (let compared =
                      check_source_target_hmac_nonintersection u crypto secret target
                        inputs.target_schema fetch_size groups mapped.1 in
                    elim (Result-cases compared.0) [
                      | inr (e, y) ↦ absurd (ground arith)
                      | inl (hmacs, y) ↦
                          (let grouped =
                              group_reports groups findings.column_stats hmacs.0 compared.1 in
                            elim (Result-cases grouped.0) [
                              | inr (e, z) ↦ absurd (ground arith)
                              | inl (reports, z) ↦ record {
                                inputs = inputs;
                                findings = findings;
                                mappings = mappings;
                                hmacs = hmacs;
                                reports = reports;
                                after_mappings = mapped.1;
                                after_hmacs = compared.1;
                                inputs-ok = p;
                                findings-ok = q;
                                mappings-ok = ap (λ o. (o, mapped.1)) x;
                                hmacs-ok = ap (λ o. (o, compared.1)) y;
                                reports-ok = ground arith;
                                checks-listed = ground arith;
                                column_stats-listed = ground arith;
                              }
                            ])
                    ])
            ])
    ]
  ]

  -- An outcome of `verify_connections` comes with the answers of all checks.
  pub verify_connections-Evidence :
      (o : VerificationOutcome) (t : Registry)
      → verify_connections u crypto secret fingerprint groups fetch_size source target context
          finished_at r
        ≡ (ok o, t)
      → Evidence o t
  unfolding verify_connections
  verify_connections-Evidence o t h =
      let run =
        run_checks u crypto secret fingerprint groups fetch_size source target context finished_at
          r in
      elim (Result-cases run.0) [
        | inr (e, x) ↦ absurd (ground arith)
        | inl (outcome, x) ↦ run_checks-Evidence o t (ap (λ a. (a, run.1)) x ∙ ground arith)
      ]
