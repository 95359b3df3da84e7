-- ===== src/Graph/Workflow/Stages.antt =====
-- The stages of a run: `current_stage` of db_sanitizer/state.py, the nodes that are left after it,
-- and what the state holds by then.
use db_sanitizer.Base.{◌≡◌, Bool, true, ◌&&◌, List, [], ◌∷◌, is_some, arith}
use db_sanitizer.Base.Text.{Text, codes}
use db_sanitizer.Graph.{RunState}
use db_sanitizer.Graph.Nodes.{
  NodeName, load_policy, inspect_schema, collect_keys, generate_replacements, build_config,
  dump_restore, verify_report,
}

pub data Stage : Type 0 where
  created loaded inspected collected generated built restored completed : Stage

-- The nodes that are left.
abbrev pub ahead : Stage → List NodeName
ahead created =
    load_policy ∷ inspect_schema ∷ collect_keys ∷ generate_replacements ∷ build_config
    ∷ dump_restore ∷ verify_report ∷ []
ahead loaded =
    inspect_schema ∷ collect_keys ∷ generate_replacements ∷ build_config ∷ dump_restore
    ∷ verify_report ∷ []
ahead inspected =
    collect_keys ∷ generate_replacements ∷ build_config ∷ dump_restore ∷ verify_report ∷ []
ahead collected = generate_replacements ∷ build_config ∷ dump_restore ∷ verify_report ∷ []
ahead generated = build_config ∷ dump_restore ∷ verify_report ∷ []
ahead built = dump_restore ∷ verify_report ∷ []
ahead restored = verify_report ∷ []
ahead completed = []

abbrev pub stage_name : Stage → Text
stage_name created = codes "created"
stage_name loaded = codes "load_policy"
stage_name inspected = codes "inspect_schema"
stage_name collected = codes "collect_mapping_keys"
stage_name generated = codes "generate_replacements_agent"
stage_name built = codes "build_greenmask_config"
stage_name restored = codes "dump_and_restore"
stage_name completed = codes "completed"

-- What the nodes before the stage have put into the state.
abbrev pub has_artifacts : Stage → RunState → Bool
has_artifacts created s = true
has_artifacts loaded s = true
has_artifacts inspected s = is_some s.schema_fingerprint
has_artifacts collected s = is_some s.schema_fingerprint && is_some s.mapping_counts
has_artifacts generated s =
    is_some s.schema_fingerprint && is_some s.mapping_counts && is_some s.llm
has_artifacts built s =
    is_some s.schema_fingerprint
    && is_some s.mapping_counts
    && is_some s.llm
    && is_some s.generated_config_path
    && is_some s.mapper_config_path
has_artifacts restored s =
    is_some s.schema_fingerprint
    && is_some s.mapping_counts
    && is_some s.llm
    && is_some s.generated_config_path
    && is_some s.mapper_config_path
    && is_some s.dump_id
has_artifacts completed s =
    is_some s.schema_fingerprint
    && is_some s.mapping_counts
    && is_some s.llm
    && is_some s.generated_config_path
    && is_some s.mapper_config_path
    && is_some s.dump_id

-- The nodes that are left and the state belong to one stage.
pub record IsAt (nodes : List NodeName) (s : RunState) : Type 0 where
  pub stage : Stage
  pub nodes_ahead : nodes ≡ ahead stage
  pub named : s.current_stage ≡ stage_name stage
  pub artifacts : has_artifacts stage s ≡ true

-- The state is still one of the same run.
abbrev pub SameRun : RunState → RunState → Type 0
SameRun s s' =
    (s.run_id ≡ s'.run_id) × (s.policy_sha256 ≡ s'.policy_sha256) × (s.started_at ≡ s'.started_at)

-- The last node is the verification.
last_of : (stage : Stage) (n : NodeName) → n ∷ [] ≡ ahead stage → n ≡ verify_report
last_of created n e = ground arith
last_of loaded n e = ground arith
last_of inspected n e = ground arith
last_of collected n e = ground arith
last_of generated n e = ground arith
last_of built n e = ground arith
last_of restored n e = ground arith
last_of completed n e = ground arith

pub last-IsAt : (n : NodeName) (s : RunState) → IsAt (n ∷ []) s → n ≡ verify_report
last-IsAt n s at = last_of at.stage n at.nodes_ahead
