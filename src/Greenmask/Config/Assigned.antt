-- ===== src/Greenmask/Config/Assigned.antt =====
-- Which group `_table_mapping` gives a column: the one of `SanitizerPolicy.group_for_column`.
use db_sanitizer.Base.{
  ◌≡◌, refl, sym, ap, ◌∙◌, Bool, true, not, ◌&&◌, Option, none, some, List, [], ◌∷◌, ◌++◌, ◌||◌,
  leb, All, all, any, map, ◌==◌, arith, Bool-cases, inl, inr,
}
use db_sanitizer.Base.Dict.{Dict, lookup}
use db_sanitizer.Base.Text.{Text, codes, text_eq_iff, text_eq_instance}
use db_sanitizer.Errors.{ok, Result-cases}
use db_sanitizer.Greenmask.Config.{
  Tables, table_key, columns_of, add_groups, sorted_dict, table_mapping,
}
use db_sanitizer.Policy.Models.{
  ColumnRef, Groups, same_column, has_column, group_for_column, is_valid_column,
}
use db_sanitizer.Policy.Names.{is_identifier}
use db_sanitizer.Greenmask.Config.Entries.{
  lookup-sorted_dict, entry_of, columns_of-sorted, is_named, named, or_else, add_groups-named,
}

abbrev no_dot : Text → Bool
no_dot s = all (λ c. not (c == b'.')) s

identifier_rest-no_dot :
    (s : Text)
    → all
        (λ c.
          (leb b'A' c && leb c b'Z')
          || (leb b'a' c && leb c b'z')
          || (leb b'0' c && leb c b'9')
          || c == b'_'
          || c == b'$')
        s
      ≡ true
    → no_dot s ≡ true
identifier_rest-no_dot [] h = refl
identifier_rest-no_dot (c ∷ s) h = ground (arith, identifier_rest-no_dot s)

is_identifier-no_dot : (s : Text) → is_identifier s ≡ true → no_dot s ≡ true
unfolding is_identifier
is_identifier-no_dot [] h = refl
is_identifier-no_dot (c ∷ s) h = ground (arith, identifier_rest-no_dot s)

split_at_dot :
    (s t v w : Text)
    → no_dot s ≡ true
    → no_dot t ≡ true
    → s ++ codes "." ++ v ≡ t ++ codes "." ++ w
    → (s ≡ t) × (v ≡ w)
split_at_dot [] [] v w hs ht e = ground arith
split_at_dot [] (d ∷ t) v w hs ht e = ground arith
split_at_dot (c ∷ s) [] v w hs ht e = ground arith
split_at_dot (c ∷ s) (d ∷ t) v w hs ht e = ground (arith, split_at_dot s t v w)

-- Of valid columns, the key of the table and the name tell which.
is_named-same :
    (c d : ColumnRef)
    → is_valid_column c ≡ true
    → is_valid_column d ≡ true
    → is_named (table_key c) c.column d ≡ same_column c d
unfolding is_valid_column same_column
is_named-same c d vc vd =
    let nc = is_identifier-no_dot c.schema_name (ground arith) in
    let nd = is_identifier-no_dot d.schema_name (ground arith) in
    elim (Bool-cases (is_named (table_key c) c.column d)) [
      | inl same ↦
          (let keys = (text_eq_iff (table_key d) (table_key c)).0 (ground arith) in
            let names = (text_eq_iff d.column c.column).0 (ground arith) in
            let (schemas, tables) =
              split_at_dot d.schema_name c.schema_name d.table c.table nd nc keys in
            same
            ∙ ground (
              arith,
              (text_eq_iff c.schema_name d.schema_name).1 (sym schemas),
              (text_eq_iff c.table d.table).1 (sym tables),
              (text_eq_iff c.column d.column).1 (sym names),
            ))
      | inr differ ↦ elim (Bool-cases (same_column c d)) [
        | inr p ↦ differ ∙ ground arith
        | inl p ↦
            (let schemas = (text_eq_iff c.schema_name d.schema_name).0 (ground arith) in
              let tables = (text_eq_iff c.table d.table).0 (ground arith) in
              let names = (text_eq_iff c.column d.column).0 (ground arith) in
              let keys : table_key d ≡ table_key c = cc in
              absurd (
                ground (
                  arith,
                  (text_eq_iff (table_key d) (table_key c)).1 keys,
                  (text_eq_iff d.column c.column).1 (sym names),
                )))
      ]
    ]

any_named-has_column :
    (c : ColumnRef) (columns : List ColumnRef)
    → is_valid_column c ≡ true
    → all is_valid_column columns ≡ true
    → any (is_named (table_key c) c.column) columns ≡ has_column c columns
unfolding has_column
any_named-has_column c [] v h = refl
any_named-has_column c (d ∷ columns) v h =
    ground
      (arith, is_named-same c d v (ground arith), any_named-has_column c columns v (ground arith))

-- The columns that the groups list are valid.
abbrev pub AllColumnsValid : Groups → Type 0
AllColumnsValid = All (λ entry. all is_valid_column entry.1.columns ≡ true)

named-group_for_column :
    (c : ColumnRef) (groups : Groups)
    → is_valid_column c ≡ true
    → AllColumnsValid groups
    → named (table_key c) c.column groups ≡ group_for_column c groups
unfolding group_for_column
named-group_for_column c [] v h = refl
named-group_for_column c ((group_id, group) ∷ groups) v h =
    ground
      (arith, any_named-has_column c group.columns v h.0, named-group_for_column c groups v h.1)

abbrev found_columns : Option (Dict Text Text) → Dict Text Text
found_columns none = []
found_columns (some columns) = columns

nothing_before : (found : Option Text) → or_else found none ≡ found
nothing_before none = refl
nothing_before (some g) = refl

-- If the columns that the groups list have valid names and the table mapping is built, then it
-- gives each column with a valid name the group that `group_for_column` gives it, and none exactly
-- if that gives none.
pub table_mapping-group_for_column :
    (groups : Groups) (tables : Tables) (c : ColumnRef)
    → AllColumnsValid groups
    → is_valid_column c ≡ true
    → table_mapping groups ≡ ok tables
    → lookup c.column (columns_of (table_key c) tables) ≡ group_for_column c groups
unfolding table_mapping lookup
table_mapping-group_for_column groups tables c valid v h =
    elim (Result-cases (add_groups groups [])) [
      | inr (e, p) ↦ absurd (ground arith)
      | inl (built, p) ↦
          (let end : map (λ entry. (entry.0, sorted_dict entry.1)) (sorted_dict built) ≡ tables =
              ground arith in
            let listed = add_groups-named (table_key c) c.column groups [] built p in
            ap (entry_of (table_key c) c.column) (sym end)
            ∙ ap (lookup c.column) (columns_of-sorted (table_key c) (sorted_dict built))
            ∙ lookup-sorted_dict c.column (columns_of (table_key c) (sorted_dict built))
            ∙ ap (λ found. lookup c.column (found_columns found))
                (lookup-sorted_dict (table_key c) built)
            ∙ listed.0
            ∙ nothing_before (named (table_key c) c.column groups)
            ∙ named-group_for_column c groups v valid)
    ]
