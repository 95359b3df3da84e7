-- ===== src/Llm/Generator.antt =====
-- The class `ReplacementGenerator` of db_sanitizer/llm/generator.py.
pub mod Batches
pub mod Rows
pub mod Progress
pub mod Group
pub mod Complete
pub mod Keeps
pub mod Falls
pub mod Honest
use db_sanitizer.Base.{
  ℕ, zero, suc, ◌+◌, ◌-◌, ◌*◌, ◌/◌, ◌%◌, min, max, Bool, true, false, not, ◌&&◌, ◌||◌, Option, none,
  some, List, [], ◌∷◌, ◌++◌, length, leb, ltb, ◌==◌, if◌then◌else◌,
}
use db_sanitizer.Base.Eq.{elem}
use db_sanitizer.Base.Text.{Text, codes, decimal, nonempty, text_eq_instance}
use db_sanitizer.Errors.{
  Error, Result, ok, err, generation_error, normalization_error, registry_conflict_error,
  validation_error,
}
use db_sanitizer.Exec.{Exec, pure, raise, lift, gets, ◌>>=◌, ◌>>◌, modify}
use db_sanitizer.Mapping.Normalization.{Unicode, str, normalize}
use db_sanitizer.Mapping.HmacKey.{Bytes, Crypto, digest}
use db_sanitizer.Mapping.Tables.{GenerationStats}
use db_sanitizer.Mapping.Registry.{
  Registry, list_unassigned, has_source_key, has_replacement_hmac, record_generation_stats,
}
use db_sanitizer.Mapping.Registry.Assign.{Assignment, assign_replacements}
use db_sanitizer.Policy.Models.{
  EntityType, person_name, phone, email, address, ConsistencyGroup, GenerationConstraints, Regex,
  normalization_value,
}
use db_sanitizer.Llm.Models.{
  GenerationRequest, GenerationResponse, ReplacementProvider, model_validate,
}

-- What a generator is built from beside the registry, with the libraries and the provider that it
-- calls.
pub record Setup : Type 0 where
  pub unicode : Unicode
  pub crypto : Crypto
  pub regex : Regex
  pub provider : ReplacementProvider
  pub secret : Bytes
  pub batch_size : ℕ
  pub max_retries : ℕ

-- The counters of the generator, and the registry that it writes.
pub record Generator : Type 0 where
  pub registry : Registry
  pub batches : ℕ
  pub accepted_items : ℕ
  pub rejected_items : ℕ
  pub duration : ℕ
  pub request_sequence : ℕ

-- The local variables of `_generate_batch` beside the generator.
pub record Batch : Type 0 where
  pub generator : Generator
  pub accepted : List Text
  pub accepted_hmacs : List Text

-- `ReplacementGenerator(...)`
unfoldable pub new_generator : Registry → ℕ → ℕ → Result Generator
new_generator registry batch_size max_retries =
    if ltb batch_size 1
    then err generation_error
    else ok (record {
      registry = registry;
      batches = 0;
      accepted_items = 0;
      rejected_items = 0;
      duration = 0;
      request_sequence = 0;
    })

-- `_request_count`
unfoldable pub request_count : ℕ → ℕ → ℕ
request_count batch_size remaining =
    min 1_000 (min (batch_size * 2) (remaining + max 2 ((remaining + 3) / 4)))

unfoldable pub variation : EntityType → ℕ → Text
variation entity sequence =
    codes " Synthetic generation batch "
    ++ decimal sequence
    ++ codes ": return values distinct from common default examples and previous synthetic batches."
    ++ elim entity [
      | phone ↦
          (let start : ℕ = ((sequence - 1) % 9) * 100 + 100 in
            codes " For this batch use the three-digit block after '+7 000' in the range "
            ++ decimal start
            ++ codes "-"
            ++ decimal (start + 99)
            ++ codes ".")
      | email ↦ codes " Use local parts beginning with synthetic" ++ decimal sequence ++ codes "."
      | _ ↦ []
    ]

-- `_request_constraints`
unfoldable pub request_constraints : ConsistencyGroup → ℕ → GenerationConstraints
unfolding variation
request_constraints group sequence = record group.generation {
  description = group.generation.description ++ variation group.entity_type sequence;
}

-- `re.compile(regex) if regex else None`, and `regex is None or regex.fullmatch(value)`.
unfoldable pub matches : Regex → Option Text → Text → Bool
matches re none value = true
matches re (some []) value = true
matches re (some (c ∷ pattern)) value = re.fullmatch (c ∷ pattern) value

-- `_is_valid_value`
unfoldable pub is_valid_value : Regex → ConsistencyGroup → Text → Bool
unfolding matches
is_valid_value re group value =
    nonempty value
    && leb group.generation.min_length (length value)
    && leb (length value) group.generation.max_length
    && matches re group.generation.regex value

-- `except NormalizationError: raise GenerationError`
abbrev pub as_generation_error : Result Text → Result Text
as_generation_error (ok value) = ok value
as_generation_error (err normalization_error) = err generation_error
as_generation_error (err e) = err e
