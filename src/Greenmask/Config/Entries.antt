-- ===== src/Greenmask/Config/Entries.antt =====
-- What the loops of `_table_mapping` leave for a table and a column.
use db_sanitizer.Base.{
  ◌≡◌, refl, sym, ap, Bool, false, ◌&&◌, Option, none, some, List, [], ◌∷◌, any, map, is_some,
  arith, Bool-cases, Option-cases, inl, inr, if◌then◌else◌,
}
use mathlib.Core.Path.{subst}
use db_sanitizer.Base.Dict.{Dict, lookup, insert, lookup-insert}
use db_sanitizer.Base.Sort.{sort, sort_insert}
use db_sanitizer.Base.Text.{Text, text_eq, text_eq_iff, text_eq_instance, text_ltb, text_ltb_asym}
use db_sanitizer.Errors.{ok, Result-cases}
use db_sanitizer.Greenmask.Config.{
  Tables, table_key, columns_of, add_column, add_columns, add_groups, sorted_dict,
}
use db_sanitizer.Policy.Models.{ColumnRef, Groups}

module _ {κ} {V : Type κ} where
  abbrev by_key : Text × V → Text × V → Bool
  by_key a b = text_ltb a.0 b.0

  lookup-sort_insert :
      (k : Text) (entry : Text × V) (d : Dict Text V)
      → lookup k (sort_insert by_key entry d) ≡ lookup k (entry ∷ d)
  unfolding sort_insert lookup
  lookup-sort_insert k entry [] = refl
  lookup-sort_insert k entry (e ∷ d) = ground (
    arith,
    lookup-sort_insert k entry d,
    text_eq_iff entry.0 k,
    text_eq_iff e.0 k,
    text_ltb_asym e.0 entry.0,
    text_ltb_asym k k,
  )

  -- A sorted dict holds the same.
  pub lookup-sorted_dict : (k : Text) (d : Dict Text V) → lookup k (sorted_dict d) ≡ lookup k d
  unfolding sort lookup
  lookup-sorted_dict k [] = refl
  lookup-sorted_dict k (entry ∷ d) =
      ground (arith, lookup-sort_insert k entry (sorted_dict d), lookup-sorted_dict k d)

-- The group of a column in the tables.
abbrev pub entry_of : Text → Text → Tables → Option Text
entry_of table column tables = lookup column (columns_of table tables)

pub columns_of-sorted :
    (table : Text) (tables : Tables)
    → columns_of table (map (λ entry. (entry.0, sorted_dict entry.1)) tables)
      ≡ sorted_dict (columns_of table tables)
unfolding lookup sort
columns_of-sorted table [] = refl
columns_of-sorted table ((key, columns) ∷ tables) = ground (arith, columns_of-sorted table tables)

-- The column is the one with this table's key and this name.
abbrev pub is_named : Text → Text → ColumnRef → Bool
is_named table column c = text_eq (table_key c) table && text_eq c.column column

-- What a step adds to the entries: `group_id` where `found`, which had none before.
abbrev Adds : Bool → Text → Text → Text → Tables → Tables → Type 0
Adds found group_id table column before after =
    (entry_of table column after ≡ (if found then some group_id else entry_of table column before))
    × ((is_some (entry_of table column before) && found) ≡ false)

abbrev pub or_else : Option Text → Option Text → Option Text
or_else none b = b
or_else (some a) b = some a

module _ (table column : Text) where
  add_column-Adds :
      (group_id : Text) (c : ColumnRef) (before after : Tables)
      → add_column group_id c before ≡ ok after
      → Adds (is_named table column c) group_id table column before after
  unfolding add_column
  add_column-Adds group_id c before after h =
      let columns = columns_of (table_key c) before in
      let added = insert (table_key c) (insert c.column group_id columns) before in
      elim (Bool-cases (is_some (lookup c.column columns))) [
        | inl taken ↦ absurd (ground arith)
        | inr free ↦
            (let end : added ≡ after = ground arith in
              subst (Adds (is_named table column c) group_id table column before) end
                (elim (Bool-cases (text_eq (table_key c) table)) [
                  | inr other ↦ ground (
                    arith,
                    lookup-insert (table_key c) table (insert c.column group_id columns) before,
                  )
                  | inl same ↦
                      (let q : table_key c ≡ table = (text_eq_iff (table_key c) table).0 same in
                        ground (
                          arith,
                          q,
                          free,
                          text_eq_iff c.column column,
                          lookup-insert (table_key c) table (insert c.column group_id columns)
                              before,
                          lookup-insert c.column column group_id columns,
                        ))
                ]))
      ]

  add_columns-Adds :
      (group_id : Text) (columns : List ColumnRef) (before after : Tables)
      → add_columns group_id columns before ≡ ok after
      → Adds (any (is_named table column) columns) group_id table column before after
  unfolding add_columns
  add_columns-Adds group_id [] before after h =
      let q : before ≡ after = ground arith in
      subst (Adds false group_id table column before) q (refl, ground arith)
  add_columns-Adds group_id (c ∷ columns) before after h =
      elim (Result-cases (add_column group_id c before)) [
        | inr (e, p) ↦ absurd (ground arith)
        | inl (between, p) ↦
            (let first = add_column-Adds group_id c before between p in
              let others = add_columns-Adds group_id columns between after (ground arith) in
              (ground (arith, first.0, others.0), ground (arith, first, others)))
      ]

  -- The first group that names the column.
  abbrev pub named : Groups → Option Text
  named [] = none
  named ((group_id, group) ∷ groups) =
      if any (is_named table column) group.columns then some group_id else named groups

  pub add_groups-named :
      (groups : Groups) (before after : Tables)
      → add_groups groups before ≡ ok after
      → (entry_of table column after ≡ or_else (named groups) (entry_of table column before))
        × ((is_some (entry_of table column before) && is_some (named groups)) ≡ false)
  unfolding add_groups
  add_groups-named [] before after h =
      let q : before ≡ after = ground arith in (ap (entry_of table column) (sym q), ground arith)
  add_groups-named ((group_id, group) ∷ groups) before after h =
      elim (Result-cases (add_columns group_id group.columns before)) [
        | inr (e, p) ↦ absurd (ground arith)
        | inl (between, p) ↦
            (let first = add_columns-Adds group_id group.columns before between p in
              let others = add_groups-named groups between after (ground arith) in
              elim (Option-cases (named groups)) [
                | inl x ↦ (ground (arith, first, others), ground (arith, first, others))
                | inr (g, x) ↦ (ground (arith, first, others), ground (arith, first, others))
              ])
      ]
