-- ===== src/Llm/Models.antt =====
-- db_sanitizer/llm/models.py and base.py: what is asked of a provider, and what it answers.
use db_sanitizer.Base.{ℕ, List, [], ◌∷◌}
use db_sanitizer.Base.Text.{Text}
use db_sanitizer.Errors.{Result, ok, err, validation_error}
use db_sanitizer.Policy.Models.{EntityType, GenerationConstraints}

pub record GenerationRequest : Type 0 where
  pub entity_type : EntityType
  pub locale : Text
  pub constraints : GenerationConstraints
  pub count : ℕ

-- The values of the items of a response.
abbrev pub GenerationResponse : Type 0
GenerationResponse = List Text

-- A provider outside this program: its answer to the n-th request, or the error that it raises.
abbrev pub ReplacementProvider : Type 0
ReplacementProvider = ℕ → GenerationRequest → Result GenerationResponse

-- `GenerationResponse.model_validate`: at least one item.
unfoldable pub model_validate : GenerationResponse → Result GenerationResponse
model_validate [] = err validation_error
model_validate (value ∷ items) = ok (value ∷ items)
