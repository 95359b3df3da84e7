-- ===== src/Graph/Workflow/Steps.antt =====
-- Each node leads to the next stage of the run.
use db_sanitizer.Base.{
  ℕ, ◌≡◌, refl, true, false, some, List, ◌∷◌, map, sum, max, arith, Option-cases, inl, inr,
  if◌then◌else◌,
}
use mathlib.Core.Path.{subst}
use db_sanitizer.Base.Text.{codes}
use db_sanitizer.Errors.{ok, err, Result-cases}
use db_sanitizer.Graph.{RunState, WorkflowContext, run_metadata, state_string}
use db_sanitizer.Graph.Agent.{
  counts_of, llm_evidence, finish_agent, begin_agent, run_agent, setup_of, sorted_groups,
  generate_groups, generate_replacements_agent_node,
}
use db_sanitizer.Graph.Nodes.{
  Services, NodeName, load_policy, inspect_schema, collect_keys, generate_replacements,
  build_config, dump_restore, verify_report, run_node, load_policy_node, inspect_schema_node,
  collect_mapping_keys_node, build_greenmask_config_node, dump_and_restore_node,
  verify_and_report_node, verify_and_report,
}
use db_sanitizer.Greenmask.Config.{table_mapping}
use db_sanitizer.Llm.Generator.{new_generator}
use db_sanitizer.Mapping.HmacKey.{hmac_key}
use db_sanitizer.Mapping.Registry.{Registry, initialize, generation_stats}
use db_sanitizer.Policy.Models.{Groups}
use db_sanitizer.Policy.Validator.{validate_policy_against_schema}
use db_sanitizer.Postgres.Collector.{collect_mapping_keys}
use db_sanitizer.Verify.Report.{LlmStats}
use db_sanitizer.Graph.Workflow.Stages.{
  Stage, created, loaded, inspected, collected, generated, built, restored, completed, ahead,
  stage_name, has_artifacts, IsAt, SameRun,
}

-- A later state of the run, at the stage.
abbrev Reached : Stage → RunState → RunState → Type 0
Reached stage s s' =
    (s'.current_stage ≡ stage_name stage) × (has_artifacts stage s' ≡ true) × SameRun s s'

module _ (services : Services) (context : WorkflowContext) where
  -- The node leads from one stage to the other.
  abbrev Leads : Stage → NodeName → Stage → Type 0
  Leads before n after =
      (s s' : RunState) (r t : Registry)
      → has_artifacts before s ≡ true
      → run_node services context n s r ≡ some (ok s', t)
      → Reached after s s'

  load-Leads : Leads created load_policy loaded
  unfolding run_node load_policy_node
  load-Leads s s' r t a h =
      let q : record s { current_stage = codes "load_policy" } ≡ s' = ground arith in
      subst (Reached loaded s) q (refl, refl, (refl, refl, refl))

  inspect-Leads : Leads loaded inspect_schema inspected
  unfolding run_node inspect_schema_node
  inspect-Leads s s' r t a h = elim (Result-cases services.source.inspected) [
    | inr (e, p) ↦ absurd (ground arith)
    | inl (snapshot, p) ↦
        elim (Result-cases
          (validate_policy_against_schema services.unicode snapshot context.policy)) [
            | inr (e, p') ↦ absurd (ground arith)
            | inl (done, p') ↦
                (let end : RunState = record s {
                  current_stage = codes "inspect_schema";
                  schema_fingerprint = some (services.fingerprint snapshot);
                } in
                  let q : end ≡ s' = ground arith in
                  subst (Reached inspected s) q (refl, refl, (refl, refl, refl)))
          ]
  ]

  build-Leads : Leads generated build_config built
  unfolding run_node build_greenmask_config_node
  build-Leads s s' r t a h = elim (Result-cases (table_mapping context.policy.groups)) [
    | inr (e, p) ↦ absurd (ground arith)
    | inl (tables, p) ↦ elim (Result-cases (services.write_config tables)) [
      | inr (e, p') ↦ absurd (ground arith)
      | inl (paths, p') ↦
          (let end : RunState = record s {
            current_stage = codes "build_greenmask_config";
            generated_config_path = some paths.0;
            mapper_config_path = some paths.1;
          } in
            let q : end ≡ s' = ground arith in
            subst (Reached built s) q (refl, ground arith, (refl, refl, refl)))
    ]
  ]

  dump-Leads : Leads built dump_restore restored
  unfolding run_node dump_and_restore_node
  dump-Leads s s' r t a h = elim (Result-cases (state_string s.generated_config_path)) [
    | inr (e, p) ↦ absurd (ground arith)
    | inl (config, p) ↦ elim (Result-cases (state_string s.mapper_config_path)) [
      | inr (e, p') ↦ absurd (ground arith)
      | inl (mapper, p') ↦ elim (Result-cases (services.dump_and_restore config mapper)) [
        | inr (e, x) ↦ absurd (ground arith)
        | inl (dumped, x) ↦
            (let end : RunState = record s {
              current_stage = codes "dump_and_restore";
              dump_id = some dumped;
            } in
              let q : end ≡ s' = ground arith in
              subst (Reached restored s) q (refl, ground arith, (refl, refl, refl)))
      ]
    ]
  ]

  verify-Leads : Leads restored verify_report completed
  unfolding run_node verify_and_report_node
  verify-Leads s s' r t a h = elim (Result-cases (verify_and_report services context s r).0) [
    | inr (e, p) ↦ absurd (ground arith)
    | inl (outcome, p) ↦
        elim (Result-cases (
          if context.policy.report.include_synthetic_demo_before_after
          then services.write_sample
          else ok tt)) [
            | inr (e, p') ↦ absurd (ground arith)
            | inl (done, p') ↦
                (let end : RunState = record s { current_stage = codes "completed" } in
                  let q : end ≡ s' = ground arith in
                  subst (Reached completed s) q (refl, a, (refl, refl, refl)))
          ]
  ]

  abbrev groups_of : Groups
  groups_of =
      sorted_groups context services.unicode services.crypto services.regex services.providers
        services.duration

  -- `hashed` is what `HMACKey` makes of the key, and the collection and the counts are on the
  -- registries that the calls before them leave.
  collect-Leads : Leads inspected collect_keys collected
  unfolding run_node collect_mapping_keys_node
  collect-Leads s s' r t a h = elim (Result-cases (state_string s.schema_fingerprint)) [
    | inr (e, p) ↦ absurd (ground arith)
    | inl (schema, p) ↦ elim (Result-cases (hmac_key services.crypto context.runtime.hmac_key)) [
      | inr (e, p') ↦ absurd (ground arith)
      | inl (hashed, p') ↦
          (let begun = initialize (run_metadata services.crypto context schema) r in
            let collection =
              collect_mapping_keys services.unicode services.crypto hashed services.distinct_values
                context.policy.run.collector_fetch_size context.policy.groups begun.1 in
            let tally = counts_of false groups_of collection.1 in
            elim (Result-cases begun.0) [
              | inr (e, x) ↦ absurd (ground arith)
              | inl (done, x) ↦ elim (Result-cases collection.0) [
                | inr (e, y) ↦ absurd (ground arith)
                | inl (stats, y) ↦ elim (Result-cases tally.0) [
                  | inr (e, z) ↦ absurd (ground arith)
                  | inl (counts, z) ↦
                      (let end : RunState = record s {
                        current_stage = codes "collect_mapping_keys";
                        mapping_counts = some counts;
                      } in
                        let q : end ≡ s' = ground arith in
                        subst (Reached collected s) q (refl, ground arith, (refl, refl, refl)))
                ]
              ]
            ])
    ]
  ]

  finish-Reached :
      (groups : Groups) (batches : ℕ) (s s' : RunState) (r t : Registry)
      → has_artifacts collected s ≡ true
      → finish_agent context groups s batches r ≡ (ok s', t)
      → Reached generated s s'
  unfolding finish_agent generation_stats
  finish-Reached groups batches s s' r t a h =
      let tally = counts_of true groups r in
      elim (Option-cases r.generation_stats) [
        | inl p ↦ absurd (ground arith)
        | inr (stored, p) ↦ elim (Result-cases tally.0) [
          | inr (e, p') ↦ absurd (ground arith)
          | inl (counts, p') ↦
              (let evidence : LlmStats =
                  llm_evidence context s.llm batches stored
                    (max stored.accepted_items (sum (map (λ c. c.1) counts))) in
                let end : RunState = record s {
                  current_stage = codes "generate_replacements_agent";
                  mapping_counts = some counts;
                  llm = some evidence;
                } in
                let q : end ≡ s' = ground arith in
                subst (Reached generated s) q (refl, ground arith, (refl, refl, refl)))
        ]
      ]

  generate-Leads : Leads collected generate_replacements generated
  unfolding run_node generate_replacements_agent_node run_agent
  generate-Leads s s' r t a h =
      let llm = context.policy.llm in
      let begun =
        begin_agent context services.unicode services.crypto services.regex services.providers
          services.duration s r in
      elim (Result-cases begun.0) [
        | inr (e, p) ↦ absurd (ground arith)
        | inl (made, p) ↦
            elim (Result-cases (new_generator begun.1 llm.batch_size llm.max_retries)) [
              | inr (e, p') ↦ absurd (ground arith)
              | inl (g, p') ↦
                  (let setup =
                      setup_of context services.unicode services.crypto services.regex
                        services.providers services.duration made in
                    elim (Option-cases (generate_groups setup services.duration groups_of g)) [
                      | inl x ↦ absurd (ground arith)
                      | inr ((err e, g'), x) ↦ absurd (ground arith)
                      | inr ((ok done, g'), x) ↦
                          finish-Reached groups_of g'.batches s s' g'.registry t a (ground arith)
                    ])
            ]
      ]

  arrive :
      (before after : Stage) (m n : NodeName) (ns : List NodeName) (s s' : RunState)
      (r t : Registry)
      → n ∷ ns ≡ m ∷ ahead after
      → Leads before m after
      → has_artifacts before s ≡ true
      → run_node services context n s r ≡ some (ok s', t)
      → IsAt ns s' × SameRun s s'
  arrive before after m n ns s s' r t e leads a h =
      let same : n ≡ m = ground arith in
      let (named, artifacts, run) =
        leads s s' r t a (subst (λ k. run_node services context k s r ≡ some (ok s', t)) same h) in
      (
        record { stage = after; nodes_ahead = ground arith; named = named; artifacts = artifacts },
        run,
      )

  advance :
      (stage : Stage) (n : NodeName) (ns : List NodeName) (s s' : RunState) (r t : Registry)
      → n ∷ ns ≡ ahead stage
      → has_artifacts stage s ≡ true
      → run_node services context n s r ≡ some (ok s', t)
      → IsAt ns s' × SameRun s s'
  advance created n ns s s' r t e a h = arrive created loaded _ n ns s s' r t e load-Leads a h
  advance loaded n ns s s' r t e a h = arrive loaded inspected _ n ns s s' r t e inspect-Leads a h
  advance inspected n ns s s' r t e a h =
      arrive inspected collected _ n ns s s' r t e collect-Leads a h
  advance collected n ns s s' r t e a h =
      arrive collected generated _ n ns s s' r t e generate-Leads a h
  advance generated n ns s s' r t e a h = arrive generated built _ n ns s s' r t e build-Leads a h
  advance built n ns s s' r t e a h = arrive built restored _ n ns s s' r t e dump-Leads a h
  advance restored n ns s s' r t e a h =
      arrive restored completed _ n ns s s' r t e verify-Leads a h
  advance completed n ns s s' r t e a h = absurd (ground arith)

  -- A node that returns leads to the next stage of the run.
  pub run_node-IsAt :
      (n : NodeName) (ns : List NodeName) (s s' : RunState) (r t : Registry)
      → IsAt (n ∷ ns) s
      → run_node services context n s r ≡ some (ok s', t)
      → IsAt ns s' × SameRun s s'
  run_node-IsAt n ns s s' r t at h = advance at.stage n ns s s' r t at.nodes_ahead at.artifacts h
