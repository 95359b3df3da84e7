-- ===== src/Mapping/Tables.antt =====
-- The SQLite tables of db_sanitizer/mapping/registry.py, and its SQL statements on them. A table is
-- the list of its rows; the columns that hold times are left out.
use db_sanitizer.Base.{
  ℕ, Bool, false, not, ◌&&◌, ◌||◌, Option, none, some, List, [], ◌∷◌, ◌++◌, any, filter, is_some,
  if◌then◌else◌,
}
use db_sanitizer.Base.Text.{Text, text_eq, text_ltb}
use db_sanitizer.Base.Sort.{sort}

pub record RunMetadata : Type 0 where
  pub run_id : Text
  pub policy_sha256 : Text
  pub source_schema_sha256 : Text
  pub llm_provider : Text
  pub llm_model : Text
  pub hmac_key_fingerprint : Text
  pub status : Text

-- A row of `mappings`.
pub record MappingRecord : Type 0 where
  pub group_id : Text
  pub source_hmac : Text
  pub replacement : Option Text
  pub replacement_hmac : Option Text

-- The one row of `generation_stats`. A duration counts the ticks of some clock.
pub record GenerationStats : Type 0 where
  pub batches : ℕ
  pub accepted_items : ℕ
  pub rejected_items : ℕ
  pub duration : ℕ

-- A row of `verification_hmac_work`.
pub record HmacWork : Type 0 where
  pub value_hmac : Text
  pub expected_count : ℕ
  pub actual_count : ℕ

-- `column = ?` on a column that may be NULL.
unfoldable pub holds : Text → Option Text → Bool
holds t none = false
holds t (some s) = text_eq s t

-- `group_id = ? AND source_hmac = ?`
unfoldable pub is_key : Text → Text → MappingRecord → Bool
is_key group_id source_hmac row =
    text_eq row.group_id group_id && text_eq row.source_hmac source_hmac

abbrev pub is_pending : Text → MappingRecord → Bool
is_pending group_id row = text_eq row.group_id group_id && not (is_some row.replacement)

abbrev pub is_assigned : Text → MappingRecord → Bool
is_assigned group_id row = text_eq row.group_id group_id && is_some row.replacement

abbrev pub new_key : Text → Text → MappingRecord
new_key group_id source_hmac = record {
  group_id = group_id;
  source_hmac = source_hmac;
  replacement = none;
  replacement_hmac = none;
}

-- `SELECT 1 FROM mappings WHERE group_id = ? AND source_hmac = ?`
unfoldable pub has_key : Text → Text → List MappingRecord → Bool
unfolding is_key
has_key group_id source_hmac rows = any (is_key group_id source_hmac) rows

-- `INSERT OR IGNORE INTO mappings (group_id, source_hmac)`: a NULL replacement clashes with none.
unfoldable pub insert_or_ignore : Text → Text → List MappingRecord → List MappingRecord
unfolding has_key
insert_or_ignore group_id source_hmac rows =
    if has_key group_id source_hmac rows then rows else rows ++ (new_key group_id source_hmac ∷ [])

-- `SELECT ... FROM mappings WHERE group_id = ? AND source_hmac = ?`, the first row.
unfoldable pub select_key : Text → Text → List MappingRecord → Option MappingRecord
unfolding is_key
select_key group_id source_hmac [] = none
select_key group_id source_hmac (row ∷ rows) =
    if is_key group_id source_hmac row then some row else select_key group_id source_hmac rows

-- The two UNIQUE constraints of `mappings`, for a row that is about to be written.
unfoldable pub clashes : Text → Text → Text → Text → MappingRecord → Bool
unfolding holds is_key
clashes group_id source_hmac replacement replacement_hmac row =
    text_eq row.group_id group_id
    && not (is_key group_id source_hmac row)
    && (holds replacement row.replacement || holds replacement_hmac row.replacement_hmac)

-- `WHERE group_id = ? AND source_hmac = ? AND replacement IS NULL`
unfoldable pub is_pending_key : Text → Text → MappingRecord → Bool
unfolding is_key
is_pending_key group_id source_hmac row =
    is_key group_id source_hmac row && not (is_some row.replacement)

unfoldable pub write_replacement :
    Text → Text → Text → Text → List MappingRecord → List MappingRecord
unfolding is_pending_key
write_replacement group_id source_hmac replacement replacement_hmac [] = []
write_replacement group_id source_hmac replacement replacement_hmac (row ∷ rows) =
    (if is_pending_key group_id source_hmac row
      then record row { replacement = some replacement; replacement_hmac = some replacement_hmac }
      else row)
    ∷ write_replacement group_id source_hmac replacement replacement_hmac rows

-- `UPDATE mappings SET replacement = ?, replacement_hmac = ? WHERE ...`; `none` is the
-- `IntegrityError` of a UNIQUE constraint.
unfoldable pub update_replacement :
    Text → Text → Text → Text → List MappingRecord → Option (List MappingRecord)
unfolding clashes write_replacement
update_replacement group_id source_hmac replacement replacement_hmac rows =
    if any (is_pending_key group_id source_hmac) rows
      && any (clashes group_id source_hmac replacement replacement_hmac) rows
    then none
    else some (write_replacement group_id source_hmac replacement replacement_hmac rows)

-- `SELECT source_hmac FROM mappings WHERE group_id = ? AND replacement IS NULL ORDER BY source_hmac`
unfoldable pub pending_keys : Text → List MappingRecord → List Text
pending_keys group_id rows =
    sort text_ltb
      (mathlib.Core.List.map (λ row. row.source_hmac) (filter (is_pending group_id) rows))
