-- ===== src/Policy/Validator.antt =====
-- db_sanitizer/policy/validator.py: a policy against the schema of the source.
pub mod Coverage
pub mod Acceptance
use db_sanitizer.Base.{
  ℕ, Bool, true, false, not, ◌&&◌, ◌||◌, Option, none, some, List, [], ◌∷◌, ◌++◌, all, any, filter,
  length, ltb, ◌==◌, is_some, if◌then◌else◌,
}
use db_sanitizer.Base.Dict.{Dict, lookup, insert}
use db_sanitizer.Base.Eq.{elem, pair_eq}
use db_sanitizer.Base.Text.{Text, codes, text_eq, text_eq_instance}
use db_sanitizer.Errors.{Error, Result, ok, err, policy_error}
use db_sanitizer.Mapping.Normalization.{Unicode}
use db_sanitizer.Policy.Models.{ColumnRef, Key, key, ConsistencyGroup, Groups}
use db_sanitizer.Policy.Sections.{SanitizerPolicy}
use db_sanitizer.Policy.Schema.{ColumnInfo, ForeignKeyInfo, SchemaSnapshot, column_for}

abbrev pub supported_text_types : List Text
supported_text_types =
    codes "text"
    ∷ codes "character varying"
    ∷ codes "character"
    ∷ codes "varchar"
    ∷ codes "char"
    ∷ []

unfoldable pub add_members : Text → List ColumnRef → Dict Key Text → Dict Key Text
add_members group_id [] membership = membership
add_members group_id (c ∷ columns) membership =
    add_members group_id columns (insert (key c) group_id membership)

-- The dict comprehension of `_group_membership`, from an empty dict.
unfoldable pub group_membership : Groups → Dict Key Text → Dict Key Text
unfolding add_members
group_membership [] membership = membership
group_membership ((group_id, group) ∷ groups) membership =
    group_membership groups (add_members group_id group.columns membership)

-- A set of texts, as a list without repetition.
unfoldable pub to_set : List Text → List Text
to_set [] = []
to_set (x ∷ xs) = x ∷ filter (λ y. not (text_eq x y)) (to_set xs)

unfoldable pub assigned_groups : Dict Key Text → List ColumnRef → List Text
assigned_groups membership [] = []
assigned_groups membership (c ∷ columns) = elim (lookup (key c) membership) [
  | none ↦ assigned_groups membership columns
  | some group_id ↦ group_id ∷ assigned_groups membership columns
]

-- `_validate_foreign_key_coverage` on the columns of the relationship.
unfoldable pub validate_columns_coverage : List ColumnRef → Dict Key Text → Result (Unit {0})
unfolding to_set assigned_groups
validate_columns_coverage columns membership =
    let assigned = to_set (assigned_groups membership columns) in
    if length assigned == 0
    then ok tt
    else if not (length assigned == 1)
        || any (λ c. not (is_some (lookup (key c) membership))) columns
    then err policy_error
    else ok tt

unfoldable pub validate_foreign_key_coverage : ForeignKeyInfo → Dict Key Text → Result (Unit {0})
validate_foreign_key_coverage f membership =
    validate_columns_coverage (f.source_columns ++ f.target_columns) membership

module _ (u : Unicode) (snapshot : SchemaSnapshot) where
  -- The tests on one configured column.
  unfoldable pub validate_column : ConsistencyGroup → ColumnRef → Result (Unit {0})
  validate_column group column = elim (column_for snapshot column) [
    | none ↦ err policy_error
    | some info ↦
        if not (elem (u.casefold info.postgres_type) supported_text_types)
        then err policy_error
        else elim info.character_maximum_length [
          | none ↦ ok tt
          | some maximum ↦
              if ltb maximum group.generation.max_length then err policy_error else ok tt
        ]
  ]

  unfoldable pub validate_columns : ConsistencyGroup → List ColumnRef → Result (Unit {0})
  validate_columns group [] = ok tt
  validate_columns group (c ∷ columns) = elim (validate_column group c) [
    | err e ↦ err e
    | ok _ ↦ validate_columns group columns
  ]

  unfoldable pub validate_groups : Groups → Result (Unit {0})
  validate_groups [] = ok tt
  validate_groups ((group_id, group) ∷ groups) = elim (validate_columns group group.columns) [
    | err e ↦ err e
    | ok _ ↦ validate_groups groups
  ]

  unfoldable pub validate_foreign_keys : List ForeignKeyInfo → Dict Key Text → Result (Unit {0})
  validate_foreign_keys [] membership = ok tt
  validate_foreign_keys (f ∷ keys) membership = elim (validate_foreign_key_coverage f membership) [
    | err e ↦ err e
    | ok _ ↦ validate_foreign_keys keys membership
  ]

  unfoldable pub validate_policy_against_schema : SanitizerPolicy → Result (Unit {0})
  validate_policy_against_schema policy =
      if not policy.run.allow_target_recreate
      then err policy_error
      else elim (validate_groups policy.groups) [
        | err e ↦ err e
        | ok _ ↦ validate_foreign_keys snapshot.foreign_keys (group_membership policy.groups [])
      ]
