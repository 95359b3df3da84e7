-- ===== src/Policy/Sections.antt =====
-- The sections of a policy file, of db_sanitizer/policy/models.py, and the whole policy.
use db_sanitizer.Base.{
  ℕ, Bool, true, not, ◌&&◌, Option, none, some, [], all, length, leb, ◌==◌, is_some,
}
use db_sanitizer.Base.Text.{Text, text_eq_instance}
use db_sanitizer.Policy.Names.{is_identifier, is_env_name, is_artifact_leaf_name}
use db_sanitizer.Policy.Models.{Regex, Groups, sized, within, is_valid_group, claim_groups}

pub record RunSettings : Type 0 where
  pub directory : Text
  pub allow_target_recreate : Bool
  pub collector_fetch_size : ℕ
  pub verifier_fetch_size : ℕ

pub record ConnectionsSettings : Type 0 where
  pub source_dsn_env : Text
  pub target_dsn_env : Text

-- `hmac_algorithm` has one value.
pub record MappingSettings : Type 0 where
  pub registry_filename : Text
  pub hmac_key_env : Text

-- The two classes of settings: `api_key_env` is a field of OpenRouter's alone.
pub data Provider : Type 0 where
  openrouter : Text → Provider
  ollama : Provider

-- The temperature counts hundredths; `structured_output` has one value.
pub record LlmSettings : Type 0 where
  pub provider : Provider
  pub base_url_env : Text
  pub model : Text
  pub model_env : Option Text
  pub temperature : ℕ
  pub batch_size : ℕ
  pub max_retries : ℕ
  pub timeout_seconds : ℕ

pub record GreenmaskSettings : Type 0 where
  pub binary : Text
  pub storage_dirname : Text
  pub mapper_timeout_seconds : ℕ
  pub parallel_jobs : ℕ
  pub validate_output : Bool

pub record ReportSettings : Type 0 where
  pub json_filename : Text
  pub markdown_filename : Text
  pub include_synthetic_demo_before_after : Bool
  pub sample_rows : ℕ

pub record SanitizerPolicy : Type 0 where
  pub run : RunSettings
  pub connections : ConnectionsSettings
  pub mapping : MappingSettings
  pub llm : LlmSettings
  pub greenmask : GreenmaskSettings
  pub groups : Groups
  pub report : ReportSettings

-- `EnvironmentName`, and the validators that match `_ENV_NAME`.
abbrev pub is_environment_name : Text → Bool
is_environment_name s = sized 1 128 s && is_env_name s

-- A file name of an artifact.
abbrev pub is_filename : Text → Bool
is_filename s = sized 1 255 s && is_artifact_leaf_name s

unfoldable pub is_valid_run : RunSettings → Bool
is_valid_run r = within 1 100_000 r.collector_fetch_size && within 1 100_000 r.verifier_fetch_size

unfoldable pub is_valid_connections : ConnectionsSettings → Bool
is_valid_connections c =
    is_environment_name c.source_dsn_env && is_environment_name c.target_dsn_env

unfoldable pub is_valid_mapping : MappingSettings → Bool
is_valid_mapping m = is_filename m.registry_filename && is_environment_name m.hmac_key_env

unfoldable pub is_valid_llm : LlmSettings → Bool
is_valid_llm l =
    is_environment_name l.base_url_env
    && sized 1 255 l.model
    && elim l.model_env [ none ↦ true | some name ↦ is_environment_name name ]
    && leb l.temperature 200
    && within 1 1_000 l.batch_size
    && leb l.max_retries 20
    && within 1 3_600 l.timeout_seconds
    && elim l.provider [ openrouter name ↦ is_environment_name name | ollama ↦ true ]

unfoldable pub is_valid_greenmask : GreenmaskSettings → Bool
is_valid_greenmask g =
    sized 1 255 g.binary
    && is_filename g.storage_dirname
    && within 1 3_600 g.mapper_timeout_seconds
    && within 1 32 g.parallel_jobs

unfoldable pub is_valid_report : ReportSettings → Bool
is_valid_report r =
    is_filename r.json_filename && is_filename r.markdown_filename && leb r.sample_rows 100

-- Whether pydantic accepts the policy.
unfoldable pub is_valid_policy : Regex → SanitizerPolicy → Bool
unfolding is_valid_run is_valid_connections is_valid_mapping is_valid_llm is_valid_greenmask
    is_valid_report
is_valid_policy re p =
    is_valid_run p.run
    && is_valid_connections p.connections
    && is_valid_mapping p.mapping
    && is_valid_llm p.llm
    && is_valid_greenmask p.greenmask
    && is_valid_report p.report
    && not (length p.groups == 0)
    && all (λ g. is_identifier g.0 && is_valid_group re g.1) p.groups
    && is_some (claim_groups p.groups [])
