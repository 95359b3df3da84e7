-- ===== src/Mapping/Registry/Rows.antt =====
-- The laws of the statements on the table `mappings`.
use db_sanitizer.Base.{
  ◌≡◌, refl, ◌&&◌, Option, none, some, List, [], ◌∷◌, ◌++◌, All, is_some, arith, if◌then◌else◌,
  Bool-cases, inl, inr,
}
use mathlib.Core.Path.{subst}
use db_sanitizer.Base.Text.{Text, text_eq, text_eq_iff}
use db_sanitizer.Mapping.Tables.{
  MappingRecord, is_key, new_key, has_key, select_key, insert_or_ignore, write_replacement,
}

-- The row that a `SELECT` finds is a row of its key.
pub select_key-is_key :
    (g h : Text) (rows : List MappingRecord) (row : MappingRecord)
    → select_key g h rows ≡ some row
    → (row.group_id ≡ g) × (row.source_hmac ≡ h)
unfolding select_key is_key
select_key-is_key g h [] row e = cc
select_key-is_key g h (r ∷ rows) row e =
    ground
      (arith, select_key-is_key g h rows row, text_eq_iff r.group_id g, text_eq_iff r.source_hmac h)

-- What holds of all rows holds of the row that is found.
pub All-select_key {κ} :
    (P : MappingRecord → Type κ) (g h : Text) (rows : List MappingRecord) (row : MappingRecord)
    → All P rows
    → select_key g h rows ≡ some row
    → P row
unfolding select_key
All-select_key P g h [] row all e = cc
All-select_key P g h (r ∷ rows) row all e = elim (Bool-cases (is_key g h r)) [
  | inl this ↦ (let q : r ≡ row = ground arith in subst P q all.0)
  | inr later ↦ All-select_key P g h rows row all.1 (ground arith)
]

pub has_key-select_key :
    (g h : Text) (rows : List MappingRecord) → has_key g h rows ≡ is_some (select_key g h rows)
unfolding has_key select_key
has_key-select_key g h [] = refl
has_key-select_key g h (r ∷ rows) = ground (arith, has_key-select_key g h rows)

-- The row after `UPDATE`, if its key is the one that is updated.
abbrev pub fill : Text → Text → Option MappingRecord → Option MappingRecord
fill replacement replacement_hmac none = none
fill replacement replacement_hmac (some row) =
    if is_some row.replacement
    then some row
    else some
        (record row { replacement = some replacement; replacement_hmac = some replacement_hmac })

pub select_key-write_replacement :
    (g s r h : Text) (j k : Text) (rows : List MappingRecord)
    → select_key j k (write_replacement g s r h rows)
      ≡ (if text_eq g j && text_eq s k then fill r h (select_key j k rows) else select_key j k rows)
unfolding select_key write_replacement
select_key-write_replacement g s r h j k [] = ground arith
select_key-write_replacement g s r h j k (row ∷ rows) = ground (
  arith,
  select_key-write_replacement g s r h j k rows,
  text_eq_iff g j,
  text_eq_iff s k,
  text_eq_iff row.group_id g,
  text_eq_iff row.group_id j,
  text_eq_iff row.source_hmac s,
  text_eq_iff row.source_hmac k,
)

select_key-append :
    (g s j k : Text) (rows : List MappingRecord)
    → select_key j k (rows ++ (new_key g s ∷ [])) ≡ (
        if is_some (select_key j k rows)
        then select_key j k rows
        else if text_eq g j && text_eq s k
        then some (new_key g s)
        else none)
unfolding select_key is_key
select_key-append g s j k [] = ground arith
select_key-append g s j k (row ∷ rows) = ground (arith, select_key-append g s j k rows)

pub select_key-insert_or_ignore :
    (g s j k : Text) (rows : List MappingRecord)
    → select_key j k (insert_or_ignore g s rows) ≡ (
        if is_some (select_key j k rows)
        then select_key j k rows
        else if text_eq g j && text_eq s k
        then some (new_key g s)
        else none)
unfolding insert_or_ignore
select_key-insert_or_ignore g s j k rows = ground (
  arith,
  select_key-append g s j k rows,
  has_key-select_key g s rows,
  text_eq_iff g j,
  text_eq_iff s k,
)

-- An update changes no key.
pub has_key-write_replacement :
    (g s r h : Text) (j k : Text) (rows : List MappingRecord)
    → has_key j k (write_replacement g s r h rows) ≡ has_key j k rows
unfolding has_key write_replacement
has_key-write_replacement g s r h j k [] = refl
has_key-write_replacement g s r h j k (row ∷ rows) =
    ground (arith, has_key-write_replacement g s r h j k rows)
