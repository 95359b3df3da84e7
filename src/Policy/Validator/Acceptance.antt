-- ===== src/Policy/Validator/Acceptance.antt =====
-- Which policies `validate_policy_against_schema` accepts.
use db_sanitizer.Base.{
  ◌≡◌, ◌⊎◌, refl, Bool, true, false, ◌&&◌, ◌||◌, Option, none, some, List, [], ◌∷◌, ◌++◌, all, leb,
  is_some, arith, Option-cases, inl, inr, sym, ap, ◌∙◌, if◌then◌else◌,
}
use db_sanitizer.Base.Dict.{Dict, lookup, insert, lookup-insert}
use db_sanitizer.Base.Eq.{elem, pair_eq}
use db_sanitizer.Base.Text.{Text, text_eq_iff, text_eq_instance}
use db_sanitizer.Errors.{Result, ok, err, policy_error}
use db_sanitizer.Mapping.Normalization.{Unicode}
use db_sanitizer.Policy.Models.{
  ColumnRef, Key, key, ConsistencyGroup, Groups, same_column, has_column, claim_groups,
  group_for_column,
}
use db_sanitizer.Policy.Models.Groups.{lists, group_for_column_iff}
use db_sanitizer.Policy.Sections.{SanitizerPolicy}
use db_sanitizer.Policy.Schema.{ForeignKeyInfo, SchemaSnapshot, column_for}
use db_sanitizer.Policy.Validator.{
  add_members, group_membership, supported_text_types, validate_column, validate_columns,
  validate_foreign_key_coverage, validate_foreign_keys, validate_groups,
  validate_policy_against_schema,
}
use db_sanitizer.Policy.Validator.Coverage.{is_uniform, same_group, validate_columns_coverage_iff}

lookup-add_members :
    (g : Text) (c : ColumnRef) (columns : List ColumnRef) (d : Dict Key Text)
    → lookup (key c) (add_members g columns d)
      ≡ (if has_column c columns then some g else lookup (key c) d)
unfolding add_members has_column same_column
lookup-add_members g c [] d = refl
lookup-add_members g c (x ∷ columns) d = ground (
  arith,
  lookup-add_members g c columns (insert (key x) g d),
  lookup-insert (key x) (key c) g d,
  text_eq_iff c.schema_name x.schema_name,
  text_eq_iff x.schema_name c.schema_name,
  text_eq_iff c.table x.table,
  text_eq_iff x.table c.table,
  text_eq_iff c.column x.column,
  text_eq_iff x.column c.column,
)

-- The membership of a column is a group that lists it.
membership-lists :
    (c : ColumnRef) (g : Text) (groups : Groups) (d : Dict Key Text)
    → lookup (key c) (group_membership groups d) ≡ some g
    → (lists g c groups ≡ true) ⊎ (lookup (key c) d ≡ some g)
unfolding group_membership lists
membership-lists c g [] d h = inr h
membership-lists c g ((j, group) ∷ groups) d h =
    elim (membership-lists c g groups (add_members j group.columns d) h) [
      | inl later ↦ inl (ground arith)
      | inr here ↦
          (let added = lookup-add_members j c group.columns d in
            ground (arith, added, text_eq_iff j g))
    ]

is_some-membership :
    (c : ColumnRef) (groups : Groups) (d : Dict Key Text)
    → is_some (lookup (key c) (group_membership groups d))
      ≡ (is_some (group_for_column c groups) || is_some (lookup (key c) d))
unfolding group_membership group_for_column
is_some-membership c [] d = refl
is_some-membership c ((j, group) ∷ groups) d = ground (
  arith,
  is_some-membership c groups (add_members j group.columns d),
  lookup-add_members j c group.columns d,
)

-- In a policy that passes the check across groups, the membership is `group_for_column`.
membership-group_for_column :
    (groups : Groups) (seen : Dict Key Text) (c : ColumnRef)
    → claim_groups groups [] ≡ some seen
    → lookup (key c) (group_membership groups []) ≡ group_for_column c groups
unfolding lookup
membership-group_for_column groups seen c e =
    elim (Option-cases (lookup (key c) (group_membership groups []))) [
      | inl absent ↦ ground (arith, is_some-membership c groups [])
      | inr (g, h) ↦ elim (membership-lists c g groups [] h) [
        | inl listed ↦ h ∙ sym ((group_for_column_iff groups seen c g e).1 listed)
        | inr impossible ↦ cc
      ]
    ]

-- The column exists, holds text, and has room for the longest replacement.
abbrev pub fits : Unicode → SchemaSnapshot → ConsistencyGroup → ColumnRef → Bool
fits u snapshot group column = elim (column_for snapshot column) [
  | none ↦ false
  | some info ↦
      elem (u.casefold info.postgres_type) supported_text_types
      && elim info.character_maximum_length [
        | none ↦ true
        | some maximum ↦ leb group.generation.max_length maximum
      ]
]

-- The columns at both ends of the foreign key.
abbrev pub ends_of : ForeignKeyInfo → List ColumnRef
ends_of f = f.source_columns ++ f.target_columns

abbrev pub is_acceptable : Unicode → SchemaSnapshot → SanitizerPolicy → Bool
is_acceptable u snapshot policy =
    policy.run.allow_target_recreate
    && all (λ entry. all (fits u snapshot entry.1) entry.1.columns) policy.groups
    && all (λ f. is_uniform (λ c. group_for_column c policy.groups) (ends_of f))
        snapshot.foreign_keys

abbrev verdict : Bool → Result (Unit {0})
verdict b = if b then ok tt else err policy_error

module _ (u : Unicode) (snapshot : SchemaSnapshot) where
  validate_column-verdict :
      (group : ConsistencyGroup) (c : ColumnRef)
      → validate_column u snapshot group c ≡ verdict (fits u snapshot group c)
  unfolding validate_column
  validate_column-verdict group c = ground arith

  validate_columns-verdict :
      (group : ConsistencyGroup) (columns : List ColumnRef)
      → validate_columns u snapshot group columns ≡ verdict (all (fits u snapshot group) columns)
  unfolding validate_columns
  validate_columns-verdict group [] = refl
  validate_columns-verdict group (c ∷ columns) =
      ground (arith, validate_column-verdict group c, validate_columns-verdict group columns)

  validate_groups-verdict :
      (groups : Groups)
      → validate_groups u snapshot groups
        ≡ verdict (all (λ entry. all (fits u snapshot entry.1) entry.1.columns) groups)
  unfolding validate_groups
  validate_groups-verdict [] = refl
  validate_groups-verdict ((g, group) ∷ groups) =
      ground (arith, validate_columns-verdict group group.columns, validate_groups-verdict groups)

  all-same_group :
      (groups : Groups) (seen : Dict Key Text) (o : Option Text) (columns : List ColumnRef)
      → claim_groups groups [] ≡ some seen
      → all (λ d. same_group o (lookup (key d) (group_membership groups []))) columns
        ≡ all (λ d. same_group o (group_for_column d groups)) columns
  all-same_group groups seen o [] e = refl
  all-same_group groups seen o (c ∷ columns) e =
      ground
        (arith, membership-group_for_column groups seen c e, all-same_group groups seen o columns e)

  is_uniform-membership :
      (groups : Groups) (seen : Dict Key Text) (columns : List ColumnRef)
      → claim_groups groups [] ≡ some seen
      → is_uniform (λ c. lookup (key c) (group_membership groups [])) columns
        ≡ is_uniform (λ c. group_for_column c groups) columns
  is_uniform-membership groups seen [] e = refl
  is_uniform-membership groups seen (c ∷ columns) e =
      all-same_group groups seen (lookup (key c) (group_membership groups [])) columns e
      ∙ ap (λ o. all (λ d. same_group o (group_for_column d groups)) columns)
          (membership-group_for_column groups seen c e)

  validate_foreign_keys-verdict :
      (groups : Groups) (seen : Dict Key Text) (keys : List ForeignKeyInfo)
      → claim_groups groups [] ≡ some seen
      → validate_foreign_keys u snapshot keys (group_membership groups [])
        ≡ verdict (all (λ f. is_uniform (λ c. group_for_column c groups) (ends_of f)) keys)
  unfolding validate_foreign_keys validate_foreign_key_coverage
  validate_foreign_keys-verdict groups seen [] e = refl
  validate_foreign_keys-verdict groups seen (f ∷ keys) e = ground (
    arith,
    validate_columns_coverage_iff (group_membership groups []) (ends_of f),
    is_uniform-membership groups seen (ends_of f) e,
    validate_foreign_keys-verdict groups seen keys e,
  )

  -- A policy that passes the check across groups is accepted exactly when it allows the target to
  -- be recreated, each configured column exists, holds text and has room for the longest
  -- replacement, and the columns of each foreign key are all in one group, or all in none. The only
  -- other result is a policy error.
  pub validate_policy_against_schema_iff :
      (policy : SanitizerPolicy) (seen : Dict Key Text)
      → claim_groups policy.groups [] ≡ some seen
      → validate_policy_against_schema u snapshot policy
        ≡ (if is_acceptable u snapshot policy then ok tt else err policy_error)
  unfolding validate_policy_against_schema
  validate_policy_against_schema_iff policy seen e = ground (
    arith,
    validate_groups-verdict policy.groups,
    validate_foreign_keys-verdict policy.groups seen snapshot.foreign_keys e,
  )
