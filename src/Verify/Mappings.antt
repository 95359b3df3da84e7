-- ===== src/Verify/Mappings.antt =====
-- The row-by-row comparison of `check_configured_mappings` in db_sanitizer/verify/checks.py. The
-- rows that the two cursors yield are arguments.
pub mod Rows
pub mod Column
use db_sanitizer.Base.{
  ℕ, zero, suc, ◌+◌, Bool, true, false, not, ◌&&◌, ◌||◌, Option, none, some, List, [], ◌∷◌, any,
  ◌==◌, if◌then◌else◌,
}
use db_sanitizer.Base.Text.{Text, text_eq, nonempty}
use db_sanitizer.Errors.{Error, Result, ok, err, verification_error, normalization_error}
use db_sanitizer.Exec.{Exec, pure, raise, lift, gets, ◌>>=◌, ◌>>◌, modify}
use db_sanitizer.Mapping.Normalization.{Unicode, Value, null, str, other, normalize}
use db_sanitizer.Mapping.HmacKey.{Bytes, Crypto, digest}
use db_sanitizer.Verify.LookupCache.{ReplacementLookupCache, cached_lookup}

pub record MappingMetrics : Type 0 where
  pub columns_checked : ℕ
  pub primary_key_columns : ℕ
  pub aggregate_columns : ℕ
  pub unavailable_columns : ℕ
  pub rows_checked : ℕ
  pub primary_key_mismatches : ℕ
  pub null_mismatches : ℕ
  pub missing_mappings : ℕ
  pub mapping_mismatches : ℕ
  pub unchanged_values : ℕ
  pub invalid_source_values : ℕ
  pub invalid_target_values : ℕ

-- `_MappingMetrics.failed`
unfoldable pub failed : MappingMetrics → Bool
failed m =
    any (λ n. not (n == 0))
      (m.unavailable_columns ∷ m.primary_key_mismatches ∷ m.null_mismatches ∷ m.missing_mappings
        ∷ m.mapping_mismatches ∷ m.unchanged_values ∷ m.invalid_source_values
        ∷ m.invalid_target_values ∷ [])

-- What the checks of one column mutate.
pub record Comparison : Type 0 where
  pub metrics : MappingMetrics
  pub cache : ReplacementLookupCache

abbrev pub count_in : (MappingMetrics → MappingMetrics) → Exec Comparison (Unit {0})
count_in f = modify (λ s. record s { metrics = f s.metrics })

abbrev pub on_cache : {A : Type 0} → Exec ReplacementLookupCache A → Exec Comparison A
on_cache m s = let (result, c) = m s.cache in (result, record s { cache = c })

abbrev pub null_mismatch : MappingMetrics → MappingMetrics
null_mismatch m = record m { null_mismatches = m.null_mismatches + 1 }

abbrev pub missing_mapping : MappingMetrics → MappingMetrics
missing_mapping m = record m { missing_mappings = m.missing_mappings + 1 }

abbrev pub mapping_mismatch : MappingMetrics → MappingMetrics
mapping_mismatch m = record m { mapping_mismatches = m.mapping_mismatches + 1 }

abbrev pub unchanged_value : MappingMetrics → MappingMetrics
unchanged_value m = record m { unchanged_values = m.unchanged_values + 1 }

abbrev pub invalid_source : MappingMetrics → MappingMetrics
invalid_source m = record m { invalid_source_values = m.invalid_source_values + 1 }

abbrev pub invalid_target : MappingMetrics → MappingMetrics
invalid_target m = record m { invalid_target_values = m.invalid_target_values + 1 }

abbrev pub key_mismatch : MappingMetrics → MappingMetrics
key_mismatch m = record m { primary_key_mismatches = m.primary_key_mismatches + 1 }

abbrev pub row_checked : MappingMetrics → MappingMetrics
row_checked m = record m { rows_checked = m.rows_checked + 1 }

abbrev pub unless : Bool → (MappingMetrics → MappingMetrics) → MappingMetrics → MappingMetrics
unless true f m = m
unless false f m = f m

-- Equality of two objects that PostgreSQL gave.
unfoldable pub value_eq : Value → Value → Bool
value_eq null null = true
value_eq (str s) (str t) = text_eq s t
value_eq (other m) (other n) = m == n
value_eq _ _ = false

-- Equality of two key tuples.
unfoldable pub key_eq : List Value → List Value → Bool
unfolding value_eq
key_eq [] [] = true
key_eq (v ∷ vs) (w ∷ ws) = value_eq v w && key_eq vs ws
key_eq _ _ = false

-- A row of the ordered query: its key and the value of the column.
abbrev pub Row : Type 0
Row = List Value × Value

-- How the digest of a value is taken, and when `None` comes instead: `_normalize_for_check`, then
-- `digest`.
unfoldable pub digest_for_check :
    Unicode → Crypto → Bytes → Text → Text → Bool → Value → Result (Option Text)
digest_for_check u crypto secret group_id normalization allow_empty value =
    elim (normalize u value normalization allow_empty) [
      | err normalization_error ↦ ok none
      | err e ↦ err e
      | ok normalized ↦ elim (digest crypto secret group_id normalized) [
        | err e ↦ err e
        | ok source_hmac ↦ ok (some source_hmac)
      ]
    ]

-- The end of `_compare_mapping_values`, with the replacement.
unfoldable pub compare_target : Value → Value → Text → MappingMetrics → MappingMetrics
unfolding value_eq
compare_target source_value null replacement m = null_mismatch m
compare_target source_value (other n) replacement m = invalid_target m
compare_target source_value (str target) replacement m =
    unless (not (value_eq source_value (str target))) unchanged_value
      (unless (text_eq target replacement) mapping_mismatch m)

module _ (u : Unicode) (crypto : Crypto) (secret : Bytes) (group_id normalization : Text)
    (allow_empty : Bool) where
  abbrev pub digest_of : Value → Result (Option Text)
  digest_of value = digest_for_check u crypto secret group_id normalization allow_empty value

  -- `_expected_replacement`
  unfoldable pub expected_replacement : Value → Exec Comparison (Option Text)
  expected_replacement source_value s = elim (digest_of source_value) [
    | err e ↦ (err e, s)
    | ok none ↦ (ok none, record s { metrics = invalid_source s.metrics })
    | ok (some source_hmac) ↦
        (let (found, s') = on_cache (cached_lookup source_hmac) s in
          elim found [
            | err e ↦ (err e, s')
            | ok none ↦ (ok none, record s' { metrics = missing_mapping s'.metrics })
            | ok (some []) ↦ (ok none, record s' { metrics = missing_mapping s'.metrics })
            | ok (some (c ∷ replacement)) ↦ (ok (some (c ∷ replacement)), s')
          ])
  ]

  -- `_compare_mapping_values`
  unfoldable pub compare_mapping_values : Value → Value → Exec Comparison (Unit {0})
  compare_mapping_values null null s = (ok tt, s)
  compare_mapping_values null target_value s =
      (ok tt, record s { metrics = null_mismatch s.metrics })
  compare_mapping_values source_value target_value s =
      let (found, s') = expected_replacement source_value s in
      elim found [
        | err e ↦ (err e, s')
        | ok none ↦ (ok tt, s')
        | ok (some replacement) ↦ (
          ok tt,
          record s' { metrics = compare_target source_value target_value replacement s'.metrics },
        )
      ]

  -- The loop over `zip_longest(source, target)`.
  unfoldable pub compare_rows : List Row → List Row → Exec Comparison (Unit {0})
  compare_rows [] [] s = (ok tt, s)
  compare_rows [] (row ∷ target) s =
      compare_rows [] target (record s { metrics = key_mismatch s.metrics })
  compare_rows (row ∷ source) [] s =
      compare_rows source [] (record s { metrics = key_mismatch s.metrics })
  compare_rows ((source_key, source_value) ∷ source) ((target_key, target_value) ∷ target) s =
      let apart = compare_rows source target (record s { metrics = key_mismatch s.metrics }) in
      let (compared, s') =
        compare_mapping_values source_value target_value
          (record s { metrics = row_checked s.metrics }) in
      let rest = compare_rows source target s' in
      if not (key_eq source_key target_key)
      then apart
      else elim compared [ err e ↦ (err e, s') | ok _ ↦ rest ]

  -- `_check_mapping_by_primary_key`: any error leaves it as a `VerificationError`.
  unfoldable pub check_mapping_by_primary_key : List Row → List Row → Exec Comparison (Unit {0})
  check_mapping_by_primary_key source target s =
      let (compared, s') = compare_rows source target s in
      elim compared [ err e ↦ (err verification_error, s') | ok _ ↦ (ok tt, s') ]
