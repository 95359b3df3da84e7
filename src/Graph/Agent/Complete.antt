-- ===== src/Graph/Agent/Complete.antt =====
-- The end and the outcome of the node `generate_replacements_agent`.
use db_sanitizer.Base.{
  ℕ, ◌≡◌, ◌≤◌, sym, true, Option, some, count, is_some, ◌⊎◌, map, sum, arith, Option-cases, inl,
  inr,
}
use mathlib.Core.Path.{subst}
use db_sanitizer.Base.Dict.{Dict}
use db_sanitizer.Base.Text.{Text}
use db_sanitizer.Errors.{Result, ok, err, Result-cases}
use db_sanitizer.Llm.Generator.{Generator, new_generator}
use db_sanitizer.Llm.Models.{ReplacementProvider}
use db_sanitizer.Mapping.HmacKey.{Crypto, hmac_key}
use db_sanitizer.Mapping.Normalization.{Unicode}
use db_sanitizer.Mapping.Registry.{Registry, initialize}
use db_sanitizer.Mapping.Registry.Invariant.{IsConsistent}
use db_sanitizer.Mapping.Registry.Assign.Keeps.{IsValid}
use db_sanitizer.Mapping.Registry.History.Laws.{initialize-mappings}
use db_sanitizer.Mapping.Tables.{is_assigned}
use db_sanitizer.Policy.Models.{Regex, Groups}
use db_sanitizer.Verify.Report.{LlmStats}
use db_sanitizer.Graph.{RunState, WorkflowContext, Providers, provider, run_metadata, state_string}
use db_sanitizer.Graph.Agent.{
  generate_groups, setup_of, sorted_groups, begin_agent, run_agent,
  generate_replacements_agent_node,
}
use db_sanitizer.Graph.Agent.Rounds.{generate_groups_ends}

-- The number of mappings with a replacement in these groups.
abbrev pub assigned_count : Groups → Registry → ℕ
assigned_count groups r = sum (map (λ entry. count (is_assigned entry.0) r.mappings) groups)

module _ (context : WorkflowContext) where
  -- The evidence that the node leaves in the state: at least one batch, and it is that of an earlier
  -- run, or has as many accepted items as there are replacements in the registry.
  pub record HasEvidence (state state' : RunState) (r : Registry) (groups : Groups) : Type 0 where
    pub evidence : LlmStats
    pub stored : state'.llm ≡ some evidence
    pub has_batch : 1 ≤ evidence.batches
    pub covers : (state.llm ≡ some evidence) ⊎ (assigned_count groups r ≤ evidence.accepted_items)

  module _ (u : Unicode) (crypto : Crypto) (regex : Regex) (providers : Providers)
      (duration : Text → ℕ) where
    abbrev groups_of : Groups
    groups_of = sorted_groups context u crypto regex providers duration

    abbrev node : RunState → Registry → Option (Result RunState × Registry)
    node = generate_replacements_agent_node context u crypto regex providers duration

    begin_agent-mappings :
        (state : RunState) (r : Registry)
        → (begin_agent context u crypto regex providers duration state r).1.mappings ≡ r.mappings
    unfolding begin_agent
    begin_agent-mappings state r = elim (Result-cases (state_string state.schema_fingerprint)) [
      | inr (e, p) ↦ ground arith
      | inl (fingerprint, p) ↦ elim (Result-cases (hmac_key crypto context.runtime.hmac_key)) [
        | inr (e, q) ↦ ground arith
        | inl (key, q) ↦ elim (Result-cases (provider providers context)) [
          | inr (e, x) ↦ ground arith
          | inl (made, x) ↦
              (let m = run_metadata crypto context fingerprint in
                elim (Result-cases (initialize m r).0) [
                  | inr (e, y) ↦ ground (arith, initialize-mappings m r)
                  | inl (done, y) ↦ ground (arith, initialize-mappings m r)
                ])
        ]
      ]
    ]

    new_generator-registry :
        (r : Registry) (batch_size max_retries : ℕ) (g : Generator)
        → new_generator r batch_size max_retries ≡ ok g
        → g.registry ≡ r
    unfolding new_generator
    new_generator-registry r batch_size max_retries g h = ground arith

    run_agent-ends :
        (state : RunState) (p : ReplacementProvider) (r : Registry)
        → IsValid r
        → is_some (run_agent context u crypto regex providers duration state p r) ≡ true
    unfolding run_agent
    run_agent-ends state p r v =
        let llm = context.policy.llm in
        let e = setup_of context u crypto regex providers duration p in
        elim (Result-cases (new_generator r llm.batch_size llm.max_retries)) [
          | inr (f, x) ↦ ground arith
          | inl (g, x) ↦
              (let same = new_generator-registry r llm.batch_size llm.max_retries g x in
                let ends =
                  generate_groups_ends e duration groups_of g (subst IsValid (sym same) v) in
                elim (Option-cases (generate_groups e duration groups_of g)) [
                  | inl y ↦ absurd (ground arith)
                  | inr ((err f, g'), y) ↦ ground arith
                  | inr ((ok done, g'), y) ↦ ground arith
                ])
        ]

    -- On a registry whose constraints hold, the node returns or raises: the rounds that each group
    -- has are enough.
    pub generate_replacements_agent_node_ends :
        (state : RunState) (r : Registry)
        → IsValid r
        → is_some
            (generate_replacements_agent_node context u crypto regex providers duration state r)
          ≡ true
    unfolding generate_replacements_agent_node
    generate_replacements_agent_node_ends state r v =
        let begun = begin_agent context u crypto regex providers duration state r in
        elim (Result-cases begun.0) [
          | inr (e, p) ↦ ground arith
          | inl (made, p) ↦ ground (
            arith,
            run_agent-ends state made begun.1
                (subst IsConsistent (sym (begin_agent-mappings state r)) v),
          )
        ]
