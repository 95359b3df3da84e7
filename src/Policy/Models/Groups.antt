-- ===== src/Policy/Models/Groups.antt =====
-- The columns of the groups of a policy: `validate_cross_group_columns` and `group_for_column`.
use db_sanitizer.Base.{
  ◌≡◌, Bool, true, false, ◌&&◌, ◌||◌, none, some, List, [], ◌∷◌, All, All-map, and-true, ◌↔◌, arith,
  Bool-cases, Option-cases, inl, inr, ◌∙◌, ap,
}
use mathlib.Core.Path.{subst}
use db_sanitizer.Base.Dict.{Dict, lookup, insert, lookup-insert}
use db_sanitizer.Base.Eq.{pair_eq, pair_beq_iff}
use db_sanitizer.Base.Text.{Text, text_eq, text_eq_iff, text_eq_instance}
use db_sanitizer.Policy.Models.{
  ColumnRef, Groups, Key, key, same_column, has_column, claim_columns, claim_groups,
  group_for_column,
}

-- The claims of one table hold in a later one.
abbrev Extends : Dict Key Text → Dict Key Text → Type 0
Extends seen later = (k : Key) (g : Text) → lookup k seen ≡ some g → lookup k later ≡ some g

abbrev IsClaimed : Dict Key Text → Text → ColumnRef → Type 0
IsClaimed seen g c = lookup (key c) seen ≡ some g

lookup-insert_new :
    (k j : Key) (g h : Text) (seen : Dict Key Text)
    → lookup k seen ≡ none
    → lookup j seen ≡ some h
    → lookup j (insert k g seen) ≡ some h
lookup-insert_new k j g h seen new old = ground (arith, lookup-insert k j g seen, pair_beq_iff k j)

claim_columns-Extends :
    (g : Text) (columns : List ColumnRef) (seen later : Dict Key Text)
    → claim_columns g columns seen ≡ some later
    → Extends seen later
unfolding claim_columns
claim_columns-Extends g [] seen later e k h l =
    let q : seen ≡ later = ground arith in subst (λ d. lookup k d ≡ some h) q l
claim_columns-Extends g (c ∷ columns) seen later e k h l =
    elim (Option-cases (lookup (key c) seen)) [
      | inl new ↦
          claim_columns-Extends g columns (insert (key c) g seen) later (ground arith) k h
            (lookup-insert_new (key c) k g h seen new l)
      | inr (previous, old) ↦ claim_columns-Extends g columns seen later (ground arith) k h l
    ]

claim_columns-IsClaimed :
    (g : Text) (columns : List ColumnRef) (seen later : Dict Key Text)
    → claim_columns g columns seen ≡ some later
    → All (IsClaimed later g) columns
unfolding claim_columns
claim_columns-IsClaimed g [] seen later e = tt
claim_columns-IsClaimed g (c ∷ columns) seen later e = elim (Option-cases (lookup (key c) seen)) [
  | inl new ↦
      (let rest : claim_columns g columns (insert (key c) g seen) ≡ some later = ground arith in
        (
          claim_columns-Extends g columns (insert (key c) g seen) later rest (key c) g
              (ground (arith, lookup-insert (key c) (key c) g seen, pair_beq_iff (key c) (key c))),
          claim_columns-IsClaimed g columns (insert (key c) g seen) later rest,
        ))
  | inr (previous, old) ↦
      (let rest : claim_columns g columns seen ≡ some later = ground arith in
        let same : previous ≡ g = ground (arith, text_eq_iff previous g) in
        (
          claim_columns-Extends g columns seen later rest (key c) g (old ∙ ap some same),
          claim_columns-IsClaimed g columns seen later rest,
        ))
]

abbrev AllClaimed : Dict Key Text → Groups → Type 0
AllClaimed later = All (λ p. All (IsClaimed later p.0) p.1.columns)

claim_groups-Extends :
    (groups : Groups) (seen later : Dict Key Text)
    → claim_groups groups seen ≡ some later
    → Extends seen later
unfolding claim_groups
claim_groups-Extends [] seen later e k h l =
    let q : seen ≡ later = ground arith in subst (λ d. lookup k d ≡ some h) q l
claim_groups-Extends ((g, group) ∷ groups) seen later e k h l =
    elim (Option-cases (claim_columns g group.columns seen)) [
      | inl refused ↦ ground arith
      | inr (mid, claimed) ↦
          claim_groups-Extends groups mid later (ground arith) k h
            (claim_columns-Extends g group.columns seen mid claimed k h l)
    ]

claim_groups-AllClaimed :
    (groups : Groups) (seen later : Dict Key Text)
    → claim_groups groups seen ≡ some later
    → AllClaimed later groups
unfolding claim_groups
claim_groups-AllClaimed [] seen later e = tt
claim_groups-AllClaimed ((g, group) ∷ groups) seen later e =
    elim (Option-cases (claim_columns g group.columns seen)) [
      | inl refused ↦ absurd (ground arith)
      | inr (mid, claimed) ↦
          (let rest : claim_groups groups mid ≡ some later = ground arith in
            (
              All-map (λ c l. claim_groups-Extends groups mid later rest (key c) g l) group.columns
                  (claim_columns-IsClaimed g group.columns seen mid claimed),
              claim_groups-AllClaimed groups mid later rest,
            ))
    ]

-- The policy lists the column under the group.
unfoldable pub lists : Text → ColumnRef → Groups → Bool
lists g c [] = false
lists g c ((h, group) ∷ groups) = (text_eq h g && has_column c group.columns) || lists g c groups

has_column-IsClaimed :
    (later : Dict Key Text) (g : Text) (c : ColumnRef) (columns : List ColumnRef)
    → All (IsClaimed later g) columns
    → has_column c columns ≡ true
    → IsClaimed later g c
unfolding has_column
has_column-IsClaimed later g c [] a h = cc
has_column-IsClaimed later g c (x ∷ columns) a h = elim (Bool-cases (same_column c x)) [
  | inl same ↦
      (let q : key x ≡ key c = ground (
        arith,
        text_eq_iff c.schema_name x.schema_name,
        text_eq_iff c.table x.table,
        text_eq_iff c.column x.column,
      ) in
        subst (λ k. lookup k later ≡ some g) q a.0)
  | inr other ↦ has_column-IsClaimed later g c columns a.1 (ground arith)
]

lists-IsClaimed :
    (later : Dict Key Text) (g : Text) (c : ColumnRef) (groups : Groups)
    → AllClaimed later groups
    → lists g c groups ≡ true
    → IsClaimed later g c
unfolding lists
lists-IsClaimed later g c [] a h = cc
lists-IsClaimed later g c ((j, group) ∷ groups) a h =
    elim (Bool-cases (text_eq j g && has_column c group.columns)) [
      | inl here ↦
          subst (λ t. IsClaimed later t c) ((text_eq_iff j g).0 (and-true _ _ here).0)
            (has_column-IsClaimed later j c group.columns a.0 (and-true _ _ here).1)
      | inr later_on ↦ lists-IsClaimed later g c groups a.1 (ground arith)
    ]

group_for_column-lists :
    (c : ColumnRef) (g : Text) (groups : Groups)
    → group_for_column c groups ≡ some g
    → lists g c groups ≡ true
unfolding group_for_column lists
group_for_column-lists c g [] h = cc
group_for_column-lists c g ((j, group) ∷ groups) h =
    ground (arith, group_for_column-lists c g groups, text_eq_iff j g)

lists-group_for_column :
    (c : ColumnRef) (g : Text) (groups : Groups)
    → lists g c groups ≡ true
    → (h : Text) × (group_for_column c groups ≡ some h)
unfolding group_for_column lists
lists-group_for_column c g [] h = absurd (ground arith)
lists-group_for_column c g ((j, group) ∷ groups) h =
    elim (Bool-cases (has_column c group.columns)) [
      | inl here ↦ (j, ground arith)
      | inr later_on ↦
          (let (k, e) = lists-group_for_column c g groups (ground arith) in (k, ground arith))
    ]

-- In a policy that passes the check across groups, `group_for_column` finds exactly the one group
-- under which the policy lists the column.
pub group_for_column_iff :
    (groups : Groups) (seen : Dict Key Text) (c : ColumnRef) (g : Text)
    → claim_groups groups [] ≡ some seen
    → (group_for_column c groups ≡ some g) ↔ (lists g c groups ≡ true)
group_for_column_iff groups seen c g e =
    let claimed = claim_groups-AllClaimed groups [] seen e in
    (
      group_for_column-lists c g groups,
      λ h.
          let (k, f) = lists-group_for_column c g groups h in
          let q : k ≡ g = ground (
            arith,
            lists-IsClaimed seen g c groups claimed h,
            lists-IsClaimed seen k c groups claimed (group_for_column-lists c k groups f),
          ) in
          f ∙ ap some q,
    )
