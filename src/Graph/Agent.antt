-- ===== src/Graph/Agent.antt =====
-- The node `generate_replacements_agent` of db_sanitizer/graph.py.
pub mod Rounds
pub mod Complete
use db_sanitizer.Base.{
  ℕ, ◌+◌, max, Bool, true, false, not, ◌&&◌, Option, none, some, List, [], ◌∷◌, length, map, sum,
  ltb, ◌==◌, if◌then◌else◌,
}
use db_sanitizer.Base.Dict.{Dict}
use db_sanitizer.Base.Sort.{sort}
use db_sanitizer.Base.Text.{Text, codes, text_ltb}
use db_sanitizer.Errors.{Result, ok, err, generation_error}
use db_sanitizer.Exec.{Exec, pure, lift, raise_if, ◌>>=◌, ◌>>◌}
use db_sanitizer.Llm.Generator.{Setup, Generator, new_generator}
use db_sanitizer.Llm.Generator.Batches.{generate_group}
use db_sanitizer.Llm.Models.{ReplacementProvider}
use db_sanitizer.Mapping.HmacKey.{Bytes, Crypto, hmac_key}
use db_sanitizer.Mapping.Normalization.{Unicode}
use db_sanitizer.Mapping.Registry.{Registry, initialize, generation_stats, mapping_count}
use db_sanitizer.Mapping.Tables.{GenerationStats}
use db_sanitizer.Policy.Models.{Regex, Groups}
use db_sanitizer.Verify.Report.{LlmStats}
use db_sanitizer.Graph.{
  RunState, WorkflowContext, Providers, llm_provider_name, llm_model_name, run_metadata, provider,
  state_string,
}

-- `{group_id: registry.mapping_count(group_id, ...) for group_id in ...}`
unfoldable pub counts_of : Bool → Groups → Exec Registry (Dict Text ℕ)
counts_of assigned_only [] = pure []
counts_of assigned_only ((group_id, group) ∷ groups) = do
  count ← mapping_count group_id assigned_only
  counts ← counts_of assigned_only groups
  pure ((group_id, count) ∷ counts)

-- The loop over the groups, each with the ticks that it takes. A round assigns at least one key, so
-- a group has at most as many rounds as the table has rows, and one more; `none` means that they
-- did not suffice.
unfoldable pub generate_groups :
    Setup → (Text → ℕ) → Groups → Generator → Option (Result (Unit {0}) × Generator)
generate_groups e duration [] g = some (ok tt, g)
generate_groups e duration ((group_id, group) ∷ groups) g =
    elim (generate_group e group_id group (length g.registry.mappings + 1) (duration group_id) g) [
      | none ↦ none
      | some (result, g') ↦ elim result [
        | err f ↦ some (err f, g')
        | ok assigned ↦ generate_groups e duration groups g'
      ]
    ]

module _ (context : WorkflowContext) where
  -- `llm_evidence`: that of an earlier run of the node, if this one made no request.
  unfoldable pub llm_evidence : Option LlmStats → ℕ → GenerationStats → ℕ → LlmStats
  llm_evidence previous batches stored stored_accepted =
      let fresh : LlmStats = record {
        provider = llm_provider_name context;
        model = llm_model_name context;
        batches = stored.batches;
        accepted_items = stored_accepted;
        rejected_items = stored.rejected_items;
        duration = stored.duration;
      } in
      elim previous [ none ↦ fresh | some earlier ↦ if batches == 0 then earlier else fresh ]

  -- What follows the loop over the groups: the counts, the evidence and the new state.
  unfoldable pub finish_agent : Groups → RunState → ℕ → Exec Registry RunState
  finish_agent groups state batches = do
    stored ← generation_stats
    counts ← counts_of true groups
    let stored_accepted : ℕ = max stored.accepted_items (sum (map (λ c. c.1) counts))
    let evidence : LlmStats = llm_evidence state.llm batches stored stored_accepted
    raise_if (ltb evidence.batches 1) generation_error
    pure (record state {
      current_stage = codes "generate_replacements_agent";
      mapping_counts = some counts;
      llm = some evidence;
    })

  module _ (u : Unicode) (crypto : Crypto) (regex : Regex) (providers : Providers)
      (duration : Text → ℕ) where
    abbrev pub setup_of : ReplacementProvider → Setup
    setup_of p = record {
      unicode = u;
      crypto = crypto;
      regex = regex;
      provider = p;
      secret = context.runtime.hmac_key;
      batch_size = context.policy.llm.batch_size;
      max_retries = context.policy.llm.max_retries;
    }

    abbrev pub sorted_groups : Groups
    sorted_groups = sort (λ a b. text_ltb a.0 b.0) context.policy.groups

    -- The body of the node until the loop over the groups.
    unfoldable pub begin_agent : RunState → Exec Registry ReplacementProvider
    begin_agent state = do
      schema_fingerprint ← lift (state_string state.schema_fingerprint)
      key ← lift (hmac_key crypto context.runtime.hmac_key)
      p ← lift (provider providers context)
      initialize (run_metadata crypto context schema_fingerprint)
      pure p

    -- The loop, and what follows it, on a new generator.
    unfoldable pub run_agent :
        RunState → ReplacementProvider → Registry → Option (Result RunState × Registry)
    run_agent state p r =
        elim (new_generator r context.policy.llm.batch_size context.policy.llm.max_retries) [
          | err f ↦ some (err f, r)
          | ok g ↦ elim (generate_groups (setup_of p) duration sorted_groups g) [
            | none ↦ none
            | some (result, g') ↦ elim result [
              | err f ↦ some (err f, g'.registry)
              | ok done ↦ some (finish_agent sorted_groups state g'.batches g'.registry)
            ]
          ]
        ]

    -- `generate_replacements_agent_node`
    unfoldable pub generate_replacements_agent_node :
        RunState → Registry → Option (Result RunState × Registry)
    generate_replacements_agent_node state r =
        let (begun, r') = begin_agent state r in
        elim begun [ err e ↦ some (err e, r') | ok p ↦ run_agent state p r' ]
