-- ===== src/Tests/CollectorRuns.antt =====
-- A collection, and a policy against a schema.
use db_sanitizer.Base.{◌≡◌, all, refl, true, false, none, some, List, [], ◌∷◌, if◌then◌else◌}
use db_sanitizer.Base.Text.{text_eq, codes}
use db_sanitizer.Errors.{ok, err, policy_error}
use db_sanitizer.Mapping.Normalization.{strip, normalize, str}
use db_sanitizer.Mapping.Registry.{
  validate_keys, validate_key, insert_source_keys, insert_all, Registry, empty,
}
use db_sanitizer.Policy.Models.{normalization_value, Groups, key, claim_groups}
use db_sanitizer.Policy.Sections.{SanitizerPolicy, ollama}
use db_sanitizer.Policy.Schema.{SchemaSnapshot}
use db_sanitizer.Policy.Validator.{validate_policy_against_schema}
use db_sanitizer.Policy.Validator.Acceptance.{is_acceptable, validate_policy_against_schema_iff}
use db_sanitizer.Postgres.Collector.{
  keys_of, key_of, fetch_batches, collect_columns, collect_column, collect_batches, collect_batch,
  Source, GroupCollectionStats, collect_mapping_keys,
}
use db_sanitizer.Postgres.Collector.WholePolicy.{is_collected_group, collect_mapping_keys_complete}
use db_sanitizer.Tests.Samples.{unicode, crypto, secret, people, name_column, name_group}
use db_sanitizer.Exec.{transaction}
use db_sanitizer.Mapping.HmacKey.{encode, digest}
use db_sanitizer.Mapping.Tables.{insert_or_ignore}
use db_sanitizer.Base.Dict.{lookup, insert}

abbrev groups : Groups
groups = (people, name_group) ∷ []

abbrev source : Source
source column = str (codes "Max") ∷ str (codes "Eve") ∷ str (codes "Tom") ∷ []

abbrev collected : Registry
collected = (collect_mapping_keys unicode crypto secret source 2 groups empty).1

abbrev stats : List GroupCollectionStats
stats =
    record {
      group_id = people;
      configured_columns = 1;
      distinct_values_seen = 3;
      inserted_keys = 3;
    }
    ∷ []

collection :
    collect_mapping_keys unicode crypto secret source 2 groups empty ≡ (ok stats, collected)
unfolding collect_mapping_keys collect_columns collect_column collect_batches fetch_batches
    collect_batch keys_of insert_source_keys key_of validate_keys transaction insert_all normalize
    normalization_value digest validate_key insert_or_ignore strip text_eq encode
collection = refl

collect_mapping_keys_complete_example :
    all (is_collected_group unicode crypto secret source 2 collected.mappings) groups ≡ true
collect_mapping_keys_complete_example =
    collect_mapping_keys_complete unicode crypto secret source 2 groups empty stats collected
      collection

abbrev policy : SanitizerPolicy
policy = record {
  run = record {
    directory = codes "runs";
    allow_target_recreate = true;
    collector_fetch_size = 2;
    verifier_fetch_size = 2;
  };
  connections = record { source_dsn_env = codes "S"; target_dsn_env = codes "T" };
  mapping = record { registry_filename = codes "r"; hmac_key_env = codes "K" };
  llm = record {
    provider = ollama;
    base_url_env = codes "U";
    model = codes "m";
    model_env = none;
    temperature = 70;
    batch_size = 2;
    max_retries = 1;
    timeout_seconds = 60;
  };
  greenmask = record {
    binary = codes "greenmask";
    storage_dirname = codes "dump";
    mapper_timeout_seconds = 60;
    parallel_jobs = 1;
    validate_output = true;
  };
  groups = groups;
  report = record {
    json_filename = codes "r.json";
    markdown_filename = codes "r.md";
    include_synthetic_demo_before_after = false;
    sample_rows = 0;
  };
}

abbrev snapshot : SchemaSnapshot
snapshot = record {
  columns =
      record {
        ref = name_column;
        postgres_type = codes "text";
        character_maximum_length = none;
        is_primary_key = false;
        is_unique = false;
      }
      ∷ [];
  foreign_keys = [];
}

claimed : claim_groups groups [] ≡ some ((key name_column, people) ∷ [])
unfolding claim_groups lookup insert
claimed = refl

validate_policy_against_schema_iff_example :
    validate_policy_against_schema unicode snapshot policy
    ≡ (if is_acceptable unicode snapshot policy then ok tt else err policy_error)
validate_policy_against_schema_iff_example =
    validate_policy_against_schema_iff unicode snapshot policy ((key name_column, people) ∷ [])
      claimed
