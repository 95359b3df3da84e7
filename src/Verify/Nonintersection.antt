-- ===== src/Verify/Nonintersection.antt =====
-- `check_source_target_hmac_nonintersection` of db_sanitizer/verify/checks.py. The cursor of a
-- column is read before the loop over its values.
pub mod Seen
pub mod Group
pub mod Clean
use db_sanitizer.Base.{
  ℕ, ◌+◌, Bool, true, false, not, ◌&&◌, Option, none, some, List, [], ◌∷◌, ◌++◌, map, sum, length,
  leb, ◌==◌, is_some, if◌then◌else◌,
}
use db_sanitizer.Base.Sort.{sort}
use db_sanitizer.Base.Text.{Text, codes, text_ltb}
use db_sanitizer.Errors.{Result, ok, err, unexpected}
use db_sanitizer.Exec.{Exec, pure, ◌>>=◌, ◌>>◌, raise_if}
use db_sanitizer.Mapping.HmacKey.{Bytes, Crypto}
use db_sanitizer.Mapping.Normalization.{Unicode, Value, null}
use db_sanitizer.Mapping.Registry.{Registry}
use db_sanitizer.Mapping.Registry.Accumulator.{
  Column, actual, add, actual_distinct_count, source_intersection_count, with_accumulator,
}
use db_sanitizer.Policy.Models.{ColumnRef, key, ConsistencyGroup, Groups, normalization_value}
use db_sanitizer.Policy.Names.{is_identifier}
use db_sanitizer.Policy.Schema.{SchemaSnapshot, column_for}
use db_sanitizer.Verify.Checks.{CheckResult, required, status_of}
use db_sanitizer.Verify.Connection.{Connection, iter_column_values}
use db_sanitizer.Verify.Mappings.{digest_for_check}
use db_sanitizer.Verify.Statistics.{key_ltb}

pub record GroupHmacStats : Type 0 where
  pub group_id : Text
  pub target_distinct : ℕ
  pub intersection_keys : ℕ
  pub invalid_values : ℕ
  pub unavailable_columns : ℕ

module _ (u : Unicode) (crypto : Crypto) (secret : Bytes) (target : Connection)
    (target_snapshot : SchemaSnapshot) (fetch_size : ℕ) (group_id : Text)
    (group : ConsistencyGroup) where
  -- A digest joins its batch, and a full batch goes to the accumulator: the batch that is left.
  unfoldable pub push : List Text → Text → Exec Registry (List Text)
  push batch value_hmac r =
      let longer = batch ++ (value_hmac ∷ []) in
      let (added, r') = add group_id actual longer r in
      if leb fetch_size (length longer)
      then elim added [ err e ↦ (err e, r') | ok _ ↦ (ok [], r') ]
      else (ok longer, r)

  -- The digest of a value, as the check takes it.
  abbrev pub digest_of_value : Value → Result (Option Text)
  digest_of_value value =
      digest_for_check u crypto secret group_id (normalization_value group.normalization)
        group.allow_empty value

  -- The loop over the values of a column: the batch and `group_invalid`.
  unfoldable pub see_values : List Value → List Text → ℕ → Exec Registry (List Text × ℕ)
  see_values [] batch invalid r = (ok (batch, invalid), r)
  see_values (null ∷ values) batch invalid r = see_values values batch invalid r
  see_values (value ∷ values) batch invalid r = elim (digest_of_value value) [
    | err e ↦ (err e, r)
    | ok none ↦ see_values values batch (invalid + 1) r
    | ok (some value_hmac) ↦
        (let (pushed, r') = push batch value_hmac r in
          elim pushed [ err e ↦ (err e, r') | ok batch' ↦ see_values values batch' invalid r' ])
  ]

  -- The loop over the columns: the batch, `group_invalid` and `group_unavailable`.
  unfoldable pub see_columns :
      List ColumnRef → List Text → ℕ → ℕ → Exec Registry (List Text × ℕ × ℕ)
  see_columns [] batch invalid missing r = (ok (batch, invalid, missing), r)
  see_columns (ref ∷ columns) batch invalid missing r =
      elim (is_some (column_for target_snapshot ref)) [
        | false ↦ see_columns columns batch invalid (missing + 1) r
        | true ↦ elim (iter_column_values target fetch_size ref) [
          | err e ↦ (err e, r)
          | ok values ↦
              (let (seen, r') = see_values values batch invalid r in
                elim seen [
                  | err e ↦ (err e, r')
                  | ok (batch', invalid') ↦ see_columns columns batch' invalid' missing r'
                ])
        ]
      ]

  abbrev pub sorted_columns : List ColumnRef
  sorted_columns = sort (λ a b. key_ltb (key a) (key b)) group.columns

  -- The block of the accumulator.
  unfoldable pub see_group : Exec Registry GroupHmacStats
  see_group = do
    found ← see_columns sorted_columns [] 0 0
    add group_id actual found.0
    target_distinct ← actual_distinct_count
    intersection_keys ← source_intersection_count group_id
    pure (record {
      group_id = group_id;
      target_distinct = target_distinct;
      intersection_keys = intersection_keys;
      invalid_values = found.1;
      unavailable_columns = found.2;
    })

  -- The body of the loop over the groups, with `GroupHmacStats.__post_init__`.
  unfoldable pub check_group : Exec Registry GroupHmacStats
  check_group = do
    stat ← with_accumulator group_id see_group
    raise_if (not (is_identifier group_id)) unexpected
    pure stat

module _ (u : Unicode) (crypto : Crypto) (secret : Bytes) (target : Connection)
    (target_snapshot : SchemaSnapshot) (fetch_size : ℕ) where
  unfoldable pub check_groups : Groups → Exec Registry (List GroupHmacStats)
  check_groups [] r = (ok [], r)
  check_groups ((group_id, group) ∷ groups) r =
      let (result, r') =
        check_group u crypto secret target target_snapshot fetch_size group_id group r in
      let (more, r'') = check_groups groups r' in
      elim result [
        | err e ↦ (err e, r')
        | ok stat ↦ elim more [ err e ↦ (err e, r'') | ok stats ↦ (ok (stat ∷ stats), r'') ]
      ]

  -- `check_source_target_hmac_nonintersection`
  unfoldable pub check_source_target_hmac_nonintersection :
      Groups → Exec Registry (List GroupHmacStats × CheckResult)
  check_source_target_hmac_nonintersection groups = do
    stats ← check_groups (sort (λ a b. text_ltb a.0 b.0) groups)
    pure (
      stats,
      record {
        id = codes "source_target_hmac_nonintersection";
        severity = required;
        status = status_of (
            sum (map (λ s. s.intersection_keys) stats) == 0
            && sum (map (λ s. s.invalid_values) stats) == 0
            && sum (map (λ s. s.unavailable_columns) stats) == 0);
      },
    )
