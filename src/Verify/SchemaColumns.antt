-- ===== src/Verify/SchemaColumns.antt =====
-- `check_schema_columns_types` of db_sanitizer/verify/checks.py.
pub mod Equal
use db_sanitizer.Base.{
  ℕ, Bool, true, false, not, ◌&&◌, Option, none, some, List, [], ◌∷◌, ◌++◌, map, count, ◌==◌,
  is_some, if◌then◌else◌,
}
use db_sanitizer.Base.Dict.{Dict, lookup, insert}
use db_sanitizer.Base.Eq.{pair_eq}
use db_sanitizer.Base.Text.{Text, codes, text_eq, text_eq_instance, nonempty}
use db_sanitizer.Mapping.Normalization.{Unicode}
use db_sanitizer.Policy.Models.{Key, key}
use db_sanitizer.Policy.Schema.{ColumnInfo, SchemaSnapshot}
use db_sanitizer.Verify.Checks.{CheckResult, required, status_of}

-- What the dicts hold for a column.
abbrev pub TypeInfo : Type 0
TypeInfo = Text × Option ℕ

abbrev pub same_length : Option ℕ → Option ℕ → Bool
same_length none none = true
same_length (some m) (some n) = m == n
same_length _ _ = false

-- A test on the entries of a key that stands in both dicts.
abbrev pub in_both : (TypeInfo → TypeInfo → Bool) → Option TypeInfo → Option TypeInfo → Bool
in_both test (some v) (some w) = test v w
in_both test _ _ = false

module _ (u : Unicode) where
  -- `s.split()`, after a part of a word
  unfoldable pub split_words : Text → Text → List Text
  split_words word [] = if nonempty word then word ∷ [] else []
  split_words word (c ∷ s) =
      let rest = split_words [] s in
      let longer = split_words (word ++ (c ∷ [])) s in
      if u.is_space c then (if nonempty word then word ∷ rest else rest) else longer

  -- `" ".join(words)`
  unfoldable pub join_words : List Text → Text
  join_words [] = []
  join_words (word ∷ []) = word
  join_words (word ∷ words) = word ++ (b' ' ∷ join_words words)

  -- `_canonical_type`
  unfoldable pub canonical_type : Text → Text
  canonical_type value = join_words (split_words [] (u.casefold value))

  -- The dict of a snapshot: a later column with the same key replaces an earlier one.
  unfoldable pub columns_dict : List ColumnInfo → Dict Key TypeInfo → Dict Key TypeInfo
  columns_dict [] d = d
  columns_dict (c ∷ columns) d =
      columns_dict columns
        (insert (key c.ref) (canonical_type c.postgres_type, c.character_maximum_length) d)

  unfoldable pub types_of : SchemaSnapshot → Dict Key TypeInfo
  types_of snapshot = columns_dict snapshot.columns []

  -- `check_schema_columns_types`
  unfoldable pub check_schema_columns_types : SchemaSnapshot → SchemaSnapshot → CheckResult
  check_schema_columns_types source_snapshot target_snapshot =
      let source = types_of source_snapshot in
      let target = types_of target_snapshot in
      let source_keys = map (λ entry. entry.0) source in
      let target_keys = map (λ entry. entry.0) target in
      let type_mismatches =
        count (λ k. in_both (λ v w. not (text_eq v.0 w.0)) (lookup k source) (lookup k target))
          source_keys in
      let length_mismatches =
        count (λ k. in_both (λ v w. not (same_length v.1 w.1)) (lookup k source) (lookup k target))
          source_keys in
      let missing_target = count (λ k. not (is_some (lookup k target))) source_keys in
      let extra_target = count (λ k. not (is_some (lookup k source))) target_keys in
      record {
        id = codes "schema_columns_types";
        severity = required;
        status = status_of (
            missing_target == 0
            && extra_target == 0
            && type_mismatches == 0
            && length_mismatches == 0);
      }
