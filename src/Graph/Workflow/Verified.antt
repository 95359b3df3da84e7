-- ===== src/Graph/Workflow/Verified.antt =====
-- What the node `verify_and_report` leaves when it returns.
use db_sanitizer.Base.{
  ◌≡◌, refl, sym, ap, ◌∙◌, true, false, some, arith, Option-cases, Bool-cases, inl, inr,
  if◌then◌else◌,
}
use db_sanitizer.Base.Text.{Text, codes}
use mathlib.Core.Path.{subst}
use db_sanitizer.Errors.{ok, Result-cases}
use db_sanitizer.Graph.{
  RunState, WorkflowContext, run_metadata, state_string, started_at_from_state,
  llm_stats_from_state,
}
use db_sanitizer.Graph.Nodes.{
  Services, verification_context, verified_run, verify_and_report, verify_and_report_node,
}
use db_sanitizer.Mapping.HmacKey.{hmac_key}
use db_sanitizer.Mapping.Registry.{Registry, initialize}
use db_sanitizer.Verify.Inputs.{Inputs, read_inputs}
use db_sanitizer.Verify.Runner.{
  VerificationContext, VerificationOutcome, outcome_passed, raise_for_failure, verify_connections,
}
use db_sanitizer.Verify.Runner.Passes.{IsSanitized}
use db_sanitizer.Verify.Runner.Outcome.{verify_and_write_report-verified, verify_connections_iff}

module _ (services : Services) (context : WorkflowContext) where
  -- The verification is about this run: it has the run ID, the schema, the start and the evidence
  -- of the state, and the policy of the context.
  pub record Describes (s : RunState) (verification : VerificationContext) : Type 0 where
    pub of_run : s.run_id ≡ verification.run_id
    pub of_policy : verification.policy_sha256 ≡ context.policy_sha256
    pub of_schema : s.schema_fingerprint ≡ some verification.source_schema_sha256
    pub of_llm : s.llm ≡ some verification.llm
    pub of_start : services.fromisoformat s.started_at ≡ some verification.started_at

  -- `verify_connections` answered, on the databases and a registry, with an outcome that is passed
  -- and whose report was written, and left the registry `t`. All that the checks demand holds.
  pub record IsVerified (s : RunState) (t : Registry) : Type 0 where
    pub verification : VerificationContext
    pub describes : Describes s verification
    pub outcome : VerificationOutcome
    pub before : Registry
    pub verified :
        verify_connections services.unicode services.crypto context.runtime.hmac_key
          services.fingerprint context.policy.groups context.policy.run.verifier_fetch_size
          services.source services.target verification services.finished_at before
        ≡ (ok outcome, t)
    pub passed : outcome_passed outcome ≡ true
    pub inputs : Inputs
    pub read : read_inputs services.source services.target ≡ ok inputs
    pub sanitized :
        IsSanitized services.unicode services.crypto context.runtime.hmac_key services.fingerprint
          context.policy.groups context.policy.run.verifier_fetch_size services.source
          services.target verification before inputs outcome
    pub reported : services.write_report outcome.report ≡ ok tt
    pub kept : t.mappings ≡ before.mappings

  verification_context-Describes :
      (s : RunState) (v : VerificationContext)
      → verification_context services context s ≡ ok v
      → Describes s v
  unfolding verification_context state_string started_at_from_state llm_stats_from_state
  verification_context-Describes s v h = elim (Option-cases s.schema_fingerprint) [
    | inl p ↦ absurd (ground arith)
    | inr (schema, p) ↦ elim (Option-cases s.llm) [
      | inl q ↦ absurd (ground arith)
      | inr (llm, q) ↦ elim (Option-cases (services.fromisoformat s.started_at)) [
        | inl x ↦ absurd (ground arith)
        | inr (start, x) ↦
            (let made : VerificationContext = record {
              run_id = s.run_id;
              policy_sha256 = context.policy_sha256;
              source_schema_sha256 = schema;
              started_at = start;
              llm = llm;
            } in
              let same : made ≡ v = ground arith in
              subst (Describes s) same (record {
                of_run = refl;
                of_policy = refl;
                of_schema = p;
                of_llm = q;
                of_start = x;
              }))
      ]
    ]
  ]

  verify_and_report-IsVerified :
      (state : RunState) (r t : Registry) (o : VerificationOutcome)
      → verify_and_report services context state r ≡ (ok o, t)
      → IsVerified state t
  unfolding verify_and_report raise_for_failure
  verify_and_report-IsVerified state r t o h =
      elim (Result-cases (verification_context services context state)) [
        | inr (e, p) ↦ absurd (ground arith)
        | inl (v, p) ↦
            (let m = run_metadata services.crypto context v.source_schema_sha256 in
              let s = (initialize m r).1 in
              let run = verified_run services context v s in
              elim (Result-cases (initialize m r).0) [
                | inr (e, q) ↦ absurd (ground arith)
                | inl (done, q) ↦
                    elim (Result-cases (hmac_key services.crypto context.runtime.hmac_key)) [
                      | inr (e, x) ↦ absurd (ground arith)
                      | inl (key, x) ↦ elim (Result-cases run.0) [
                        | inr (e, y) ↦ absurd (ground arith)
                        | inl (made, y) ↦ elim (Bool-cases (outcome_passed made)) [
                          | inr fails ↦ absurd (ground arith)
                          | inl passes ↦
                              (let (verified, written, flag) =
                                  verify_and_write_report-verified _ _ _ _ _ _ _ _ v _ s _ false
                                    made run.1 (ap (λ a. (a, run.1)) y) in
                                let (inputs, both, verdict, same) =
                                  verify_connections_iff _ _ _ _ _ _ _ _ v _ s made run.1
                                    verified in
                                let end : run.1 ≡ t = ground arith in
                                record {
                                  verification = v;
                                  describes = verification_context-Describes state v p;
                                  outcome = made;
                                  before = s;
                                  verified = verified ∙ ap (λ a. (ok made, a)) end;
                                  passed = passes;
                                  inputs = inputs;
                                  read = both;
                                  sanitized = verdict.0 passes;
                                  reported = written;
                                  kept = ap (λ a. a.mappings) (sym end) ∙ same;
                                })
                        ]
                      ]
                    ]
              ])
      ]

  -- The stage is not read.
  IsVerified-stage :
      (s : RunState) (t : Registry) (stage : Text)
      → IsVerified s t
      → IsVerified (record s { current_stage = stage }) t
  IsVerified-stage s t stage v = record {
    verification = v.verification;
    describes = record {
      of_run = v.describes.of_run;
      of_policy = v.describes.of_policy;
      of_schema = v.describes.of_schema;
      of_llm = v.describes.of_llm;
      of_start = v.describes.of_start;
    };
    outcome = v.outcome;
    before = v.before;
    verified = v.verified;
    passed = v.passed;
    inputs = v.inputs;
    read = v.read;
    sanitized = v.sanitized;
    reported = v.reported;
    kept = v.kept;
  }

  pub verify_and_report_node-IsVerified :
      (state state' : RunState) (r t : Registry)
      → verify_and_report_node services context state r ≡ (ok state', t)
      → IsVerified state' t
  unfolding verify_and_report_node
  verify_and_report_node-IsVerified state state' r t h =
      let run = verify_and_report services context state r in
      elim (Result-cases run.0) [
        | inr (e, p) ↦ absurd (ground arith)
        | inl (o, p) ↦
            elim (Result-cases (
              if context.policy.report.include_synthetic_demo_before_after
              then services.write_sample
              else ok tt)) [
                | inr (e, q) ↦ absurd (ground arith)
                | inl (done, q) ↦
                    (let end : run.1 ≡ t = ground arith in
                      let stage = codes "completed" in
                      let left : record state { current_stage = stage } ≡ state' = ground arith in
                      let verified =
                        verify_and_report-IsVerified state r run.1 o (ap (λ a. (a, run.1)) p) in
                      subst (λ x. IsVerified x t) left
                        (IsVerified-stage state t stage (subst (IsVerified state) end verified)))
              ]
      ]
