-- ===== src/Policy/Models.antt =====
-- db_sanitizer/policy/models.py. A model is a record; that pydantic accepts it is a test on it.
pub mod Groups
use db_sanitizer.Base.{
  ℕ, Bool, true, false, not, ◌&&◌, ◌||◌, Option, none, some, List, [], ◌∷◌, all, any, length, map,
  leb, ltb, ◌==◌, is_some, if◌then◌else◌,
}
use db_sanitizer.Base.Dict.{Dict, lookup, insert}
use db_sanitizer.Base.Eq.{Eq, elem, distinct, pair_eq}
use db_sanitizer.Base.Text.{Text, codes, text_eq, text_eq_instance}
use db_sanitizer.Policy.Names.{is_identifier, is_env_name, is_artifact_leaf_name}

-- Python's `re` on patterns that the policy gives.
pub record Regex : Type 0 where
  pub compiles : Text → Bool
  pub fullmatch : Text → Text → Bool

-- `Field(min_length=low, max_length=high)`
abbrev pub sized : ℕ → ℕ → Text → Bool
sized low high s = leb low (length s) && leb (length s) high

-- `Field(ge=low, le=high)`
abbrev pub within : ℕ → ℕ → ℕ → Bool
within low high n = leb low n && leb n high

pub data EntityType : Type 0 where
  person_name email phone address : EntityType

pub data NormalizationType : Type 0 where
  human_text email phone : NormalizationType

-- `normalization.value`
unfoldable pub normalization_value : NormalizationType → Text
normalization_value human_text = codes "human_text"
normalization_value NormalizationType.email = codes "email"
normalization_value NormalizationType.phone = codes "phone"

pub record ColumnRef : Type 0 where
  pub schema_name : Text
  pub table : Text
  pub column : Text

-- `ColumnRef.key`
abbrev pub Key : Type 0
Key = Text × (Text × Text)

abbrev pub key : ColumnRef → Key
key ref = (ref.schema_name, (ref.table, ref.column))

-- Two columns are equal if their keys are.
unfoldable pub same_column : ColumnRef → ColumnRef → Bool
same_column a b =
    text_eq a.schema_name b.schema_name && text_eq a.table b.table && text_eq a.column b.column

unfoldable pub is_valid_column : ColumnRef → Bool
is_valid_column ref =
    all (λ s. sized 1 63 s && is_identifier s) (ref.schema_name ∷ ref.table ∷ ref.column ∷ [])

pub record GenerationConstraints : Type 0 where
  pub description : Text
  pub min_length : ℕ
  pub max_length : ℕ
  pub regex : Option Text

pub record ConsistencyGroup : Type 0 where
  pub entity_type : EntityType
  pub locale : Text
  pub normalization : NormalizationType
  pub allow_empty : Bool
  pub generation : GenerationConstraints
  pub columns : List ColumnRef

abbrev pub Groups : Type 0
Groups = Dict Text ConsistencyGroup

unfoldable pub is_valid_generation : Regex → GenerationConstraints → Bool
is_valid_generation re g =
    sized 1 500 g.description
    && within 1 10_000 g.min_length
    && within 1 10_000 g.max_length
    && leb g.min_length g.max_length
    && elim g.regex [ none ↦ true | some pattern ↦ re.compiles pattern ]

unfoldable pub expected_normalization : EntityType → NormalizationType
expected_normalization person_name = human_text
expected_normalization EntityType.email = NormalizationType.email
expected_normalization EntityType.phone = NormalizationType.phone
expected_normalization address = human_text

unfoldable pub same_normalization : NormalizationType → NormalizationType → Bool
same_normalization human_text human_text = true
same_normalization NormalizationType.email NormalizationType.email = true
same_normalization NormalizationType.phone NormalizationType.phone = true
same_normalization _ _ = false

unfoldable pub is_valid_group : Regex → ConsistencyGroup → Bool
unfolding is_valid_generation is_valid_column expected_normalization same_normalization
is_valid_group re g =
    sized 2 32 g.locale
    && is_valid_generation re g.generation
    && not (length g.columns == 0)
    && all is_valid_column g.columns
    && same_normalization g.normalization (expected_normalization g.entity_type)
    && distinct (map key g.columns)

-- `seen.setdefault(column.key, group_id)` for the columns of one group; `none` is the `ValueError`.
unfoldable pub claim_columns : Text → List ColumnRef → Dict Key Text → Option (Dict Key Text)
claim_columns group_id [] seen = some seen
claim_columns group_id (c ∷ columns) seen = elim (lookup (key c) seen) [
  | none ↦ claim_columns group_id columns (insert (key c) group_id seen)
  | some previous ↦ if text_eq previous group_id then claim_columns group_id columns seen else none
]

unfoldable pub claim_groups : Groups → Dict Key Text → Option (Dict Key Text)
unfolding claim_columns
claim_groups [] seen = some seen
claim_groups ((group_id, group) ∷ groups) seen = elim (claim_columns group_id group.columns seen) [
  | none ↦ none
  | some seen' ↦ claim_groups groups seen'
]

-- `column in group.columns`
unfoldable pub has_column : ColumnRef → List ColumnRef → Bool
unfolding same_column
has_column c columns = any (same_column c) columns

-- `SanitizerPolicy.group_for_column`
unfoldable pub group_for_column : ColumnRef → Groups → Option Text
unfolding has_column
group_for_column c [] = none
group_for_column c ((group_id, group) ∷ groups) =
    if has_column c group.columns then some group_id else group_for_column c groups
