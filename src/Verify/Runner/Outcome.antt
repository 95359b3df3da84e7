-- ===== src/Verify/Runner/Outcome.antt =====
-- What an outcome of `verify_connections` and of `verify_and_write_report` is worth.
use db_sanitizer.Base.{
  ℕ, ◌≡◌, ◌↔◌, refl, sym, ap, ◌∙◌, Bool, true, false, not, ◌&&◌, List, [], ◌∷◌, arith, inl, inr,
  Bool-cases,
}
use mathlib.Core.Path.{subst}
use db_sanitizer.Base.Dict.{Dict}
use db_sanitizer.Base.Text.{Text}
use db_sanitizer.Errors.{Result, ok, Result-cases}
use db_sanitizer.Mapping.HmacKey.{Bytes, Crypto}
use db_sanitizer.Mapping.Normalization.{Unicode}
use db_sanitizer.Mapping.Registry.{Registry, mapping_count}
use db_sanitizer.Policy.Models.{Groups}
use db_sanitizer.Policy.Schema.{SchemaSnapshot}
use db_sanitizer.Verify.Checks.{ColumnStats}
use db_sanitizer.Verify.Connection.{Connection}
use db_sanitizer.Verify.Configured.Columns.{check_configured_mappings_iff}
use db_sanitizer.Verify.Nonintersection.Clean.{check_source_target_hmac_nonintersection_iff}
use db_sanitizer.Verify.Inputs.{Inputs, read_inputs}
use db_sanitizer.Verify.Inputs.Queried.{query_checks-Queried}
use db_sanitizer.Verify.Report.{RunReport}
use db_sanitizer.Verify.Runner.{
  VerificationContext, VerificationOutcome, outcome_passed, raise_for_failure, reports_of,
  verify_connections, verify_and_write_report,
}
use db_sanitizer.Verify.Runner.Evidence.{verify_connections-Evidence}
use db_sanitizer.Verify.Runner.Passes.{IsSanitized, Evidence-IsSanitized}

mapping_count-keeps : (group_id : Text) (r : Registry) → (mapping_count group_id false r).1 ≡ r
unfolding mapping_count
mapping_count-keeps group_id r = ground arith

reports_of-keeps :
    (stats : List ColumnStats) (d : Dict Text ℕ) (groups : Groups) (r : Registry)
    → (reports_of stats d groups r).1 ≡ r
unfolding reports_of
reports_of-keeps stats d [] r = refl
reports_of-keeps stats d ((group_id, group) ∷ groups) r =
    elim (Result-cases (mapping_count group_id false r).0) [
      | inr (e, p) ↦ ground (arith, mapping_count-keeps group_id r)
      | inl (n, p) ↦ elim (Result-cases (reports_of stats d groups r).0) [
        | inr (e, q) ↦
            ground (arith, mapping_count-keeps group_id r, reports_of-keeps stats d groups r)
        | inl (m, q) ↦
            ground (arith, mapping_count-keeps group_id r, reports_of-keeps stats d groups r)
      ]
    ]

module _ (u : Unicode) (crypto : Crypto) (secret : Bytes) (fingerprint : SchemaSnapshot → Text)
    (groups : Groups) (fetch_size : ℕ) (source target : Connection) (context : VerificationContext)
    (finished_at : ℕ) (r : Registry) where
  abbrev Sanitized : Inputs → VerificationOutcome → Type 0
  Sanitized = IsSanitized u crypto secret fingerprint groups fetch_size source target context r

  abbrev verified : Result VerificationOutcome × Registry
  verified =
      verify_connections u crypto secret fingerprint groups fetch_size source target context
        finished_at r

  -- When `verify_connections` returns, it has read both sides, its outcome is a passed one exactly
  -- when all that the nine checks demand holds, and the mappings are as before.
  pub verify_connections_iff :
      (o : VerificationOutcome) (t : Registry)
      → verify_connections u crypto secret fingerprint groups fetch_size source target context
          finished_at r
        ≡ (ok o, t)
      → (inputs : Inputs) × (read_inputs source target ≡ ok inputs)
        × ((outcome_passed o ≡ true)
            ↔ IsSanitized u crypto secret fingerprint groups fetch_size source target context r
                inputs o)
        × (t.mappings ≡ r.mappings)
  verify_connections_iff o t h =
      let e =
        verify_connections-Evidence u crypto secret fingerprint groups fetch_size source target
          context finished_at r o t h in
      let i = e.inputs in
      let q = query_checks-Queried source target groups fetch_size i e.findings e.findings-ok in
      let mapped =
        (check_configured_mappings_iff u crypto secret source target groups _ _ _ _ fetch_size r _ _
          e.mappings-ok).1 in
      let compared =
        (check_source_target_hmac_nonintersection_iff u crypto secret target i.target_schema
          fetch_size groups e.after_mappings e.after_hmacs _ _ e.hmacs-ok).1 in
      let grouped = sym (ap (λ a. a.1) e.reports-ok) ∙ reports_of-keeps _ _ _ e.after_hmacs in
      (
        i,
        e.inputs-ok,
        Evidence-IsSanitized u crypto secret fingerprint groups fetch_size source target context r
            finished_at o t e q,
        ap (λ a. a.mappings) grouped ∙ compared ∙ mapped,
      )

  -- When `verify_and_write_report` returns, the report is written, and, if it is told to raise, the
  -- outcome is a passed one.
  pub verify_and_write_report-verified :
      (write_report : RunReport → Result (Unit {0})) (raise_on_failure : Bool)
      (o : VerificationOutcome) (t : Registry)
      → verify_and_write_report u crypto secret fingerprint groups fetch_size source target context
          finished_at write_report raise_on_failure r
        ≡ (ok o, t)
      → (verified ≡ (ok o, t))
        × (write_report o.report ≡ ok tt)
        × (raise_on_failure ≡ true → outcome_passed o ≡ true)
  unfolding verify_and_write_report raise_for_failure
  verify_and_write_report-verified write_report raise_on_failure o t h =
      elim (Result-cases verified.0) [
        | inr (e, p) ↦ absurd (ground arith)
        | inl (made, p) ↦ elim (Result-cases (write_report made.report)) [
          | inr (e, x) ↦ absurd (ground arith)
          | inl (done, x) ↦ elim (Bool-cases (raise_on_failure && not (outcome_passed made))) [
            | inl fails ↦ absurd (ground arith)
            | inr passes ↦
                (let q : made ≡ o = ground arith in
                  let same : verified.1 ≡ t = ground arith in
                  (
                    ap (λ a. (a, verified.1)) p
                        ∙ ap (λ a. (ok a, verified.1)) q
                        ∙ ap (λ a. (ok o, a)) same,
                    subst (λ a. write_report a.report ≡ ok tt) q x,
                    λ flag. ap outcome_passed (sym q) ∙ ground arith,
                  ))
          ]
        ]
      ]

  -- When `verify_and_write_report` returns, by default, the report has been written, and all that
  -- the nine checks demand holds.
  pub verify_and_write_report_returns :
      (write_report : RunReport → Result (Unit {0})) (o : VerificationOutcome) (t : Registry)
      → verify_and_write_report u crypto secret fingerprint groups fetch_size source target context
          finished_at write_report true r
        ≡ (ok o, t)
      → (write_report o.report ≡ ok tt)
        × (inputs : Inputs) × (read_inputs source target ≡ ok inputs)
        × IsSanitized u crypto secret fingerprint groups fetch_size source target context r inputs o
  verify_and_write_report_returns write_report o t h =
      let (run, written, passes) = verify_and_write_report-verified write_report true o t h in
      let (inputs, both, verdict, same) = verify_connections_iff o t run in
      (written, inputs, both, verdict.0 (passes refl))
