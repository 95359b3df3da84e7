-- ===== src/Graph.antt =====
-- db_sanitizer/state.py, and of db_sanitizer/graph.py the context of a workflow and what its nodes
-- read from the state. Paths, metrics and timestamps other than the start are left out.
pub mod Agent
pub mod Nodes
pub mod Workflow
use db_sanitizer.Base.{
  ℕ, Bool, true, false, not, ◌||◌, Option, none, some, List, [], ◌∷◌, is_some, if◌then◌else◌,
}
use db_sanitizer.Base.Dict.{Dict}
use db_sanitizer.Base.Text.{Text, codes, nonempty}
use db_sanitizer.Errors.{Result, ok, err, ◌>>=◌, policy_error}
use db_sanitizer.Llm.Models.{ReplacementProvider}
use db_sanitizer.Mapping.HmacKey.{Crypto, fingerprint}
use db_sanitizer.Mapping.Normalization.{Unicode}
use db_sanitizer.Mapping.Tables.{RunMetadata}
use db_sanitizer.Policy.Sections.{SanitizerPolicy, LlmSettings, openrouter, ollama}
use db_sanitizer.Settings.{RuntimeSettings}
use db_sanitizer.Verify.Report.{LlmStats, is_valid_llm_stats}

pub record RunState : Type 0 where
  pub run_id : Text
  pub policy_sha256 : Text
  pub started_at : Text
  pub current_stage : Text
  pub schema_fingerprint : Option Text
  pub mapping_counts : Option (Dict Text ℕ)
  pub llm : Option LlmStats
  pub generated_config_path : Option Text
  pub mapper_config_path : Option Text
  pub dump_id : Option Text

-- The run ID is the name of the run's directory.
pub record WorkflowContext : Type 0 where
  pub policy : SanitizerPolicy
  pub policy_sha256 : Text
  pub runtime : RuntimeSettings
  pub run_id : Text
  pub provider_factory : Option ReplacementProvider
  pub fake_provider_enabled : Bool

-- The constructors of the providers: the synthetic one, that of OpenRouter from the address, the
-- key, the model, the timeout and the temperature, and that of Ollama from the same but the key.
pub record Providers : Type 0 where
  pub synthetic : ReplacementProvider
  pub open_router : Text → Text → Text → ℕ → ℕ → ReplacementProvider
  pub local : Text → Text → ℕ → ℕ → ReplacementProvider

-- `WorkflowContext.uses_fake_provider`
abbrev pub uses_fake_provider : WorkflowContext → Bool
uses_fake_provider context = is_some context.provider_factory || context.fake_provider_enabled

-- `policy.llm.provider`
abbrev pub provider_name : LlmSettings → Text
provider_name llm = elim llm.provider [
  | openrouter api_key_env ↦ codes "openrouter"
  | ollama ↦ codes "ollama"
]

-- `WorkflowContext.llm_provider_name`
abbrev pub llm_provider_name : WorkflowContext → Text
llm_provider_name context =
    if uses_fake_provider context then codes "fake" else provider_name context.policy.llm

-- `WorkflowContext.llm_model_name`
abbrev pub llm_model_name : WorkflowContext → Text
llm_model_name context =
    if uses_fake_provider context then codes "test-fake" else context.runtime.provider_model

-- `_run_metadata`
abbrev pub run_metadata : Crypto → WorkflowContext → Text → RunMetadata
run_metadata crypto context schema_fingerprint = record {
  run_id = context.run_id;
  policy_sha256 = context.policy_sha256;
  source_schema_sha256 = schema_fingerprint;
  llm_provider = llm_provider_name context;
  llm_model = llm_model_name context;
  hmac_key_fingerprint = fingerprint crypto context.runtime.hmac_key;
  status = codes "initialized";
}

-- The provider of the policy, from what the settings hold.
unfoldable pub configured_provider : Providers → WorkflowContext → Result ReplacementProvider
configured_provider providers context =
    let runtime = context.runtime in
    let llm = context.policy.llm in
    elim runtime.provider_base_url [
      | none ↦ err policy_error
      | some base_url ↦ elim llm.provider [
        | openrouter api_key_env ↦ elim runtime.provider_api_key [
          | none ↦ err policy_error
          | some api_key ↦ ok (
              providers.open_router base_url api_key runtime.provider_model llm.timeout_seconds
                llm.temperature)
        ]
        | ollama ↦
            ok (providers.local base_url runtime.provider_model llm.timeout_seconds llm.temperature)
      ]
    ]

-- `_provider`
unfoldable pub provider : Providers → WorkflowContext → Result ReplacementProvider
unfolding configured_provider
provider providers context = elim context.provider_factory [
  | some injected ↦ ok injected
  | none ↦
      if uses_fake_provider context
      then ok providers.synthetic
      else configured_provider providers context
]

-- `_state_string`, on what the state holds for a key
unfoldable pub state_string : Option Text → Result Text
state_string none = err policy_error
state_string (some value) = if nonempty value then ok value else err policy_error

-- `_llm_stats_from_state`
unfoldable pub llm_stats_from_state : Unicode → RunState → Result LlmStats
llm_stats_from_state u state = elim state.llm [
  | none ↦ err policy_error
  | some stats ↦ if is_valid_llm_stats u stats then ok stats else err policy_error
]

-- `_started_at_from_state`, with `datetime.fromisoformat` as an argument: `none` for what is no
-- time with a zone.
unfoldable pub started_at_from_state : (Text → Option ℕ) → RunState → Result ℕ
unfolding state_string
started_at_from_state fromisoformat state = state_string (some state.started_at) >>= λ value.
    elim (fromisoformat value) [ none ↦ err policy_error | some time ↦ ok time ]
