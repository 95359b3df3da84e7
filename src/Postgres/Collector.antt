-- ===== src/Postgres/Collector.antt =====
-- db_sanitizer/postgres/collector.py. The answers of the source database are an argument: the
-- distinct values of each column. It answers each query, so an error of the driver, which the code
-- turns into a policy error, is left out.
pub mod Complete
pub mod WholePolicy
use db_sanitizer.Base.{
  ℕ, zero, suc, ◌+◌, ◌-◌, Bool, true, false, Option, none, some, List, [], ◌∷◌, ◌++◌, length, ◌==◌,
  if◌then◌else◌,
}
use db_sanitizer.Base.Text.{Text}
use db_sanitizer.Errors.{Error, Result, ok, err, policy_error}
use db_sanitizer.Exec.{Exec, pure, raise, lift, gets, ◌>>=◌, ◌>>◌}
use db_sanitizer.Mapping.Normalization.{Unicode, Value, normalize}
use db_sanitizer.Mapping.HmacKey.{Bytes, Crypto, digest}
use db_sanitizer.Mapping.Registry.{Registry, insert_source_keys}
use db_sanitizer.Policy.Models.{ColumnRef, ConsistencyGroup, Groups, normalization_value}

pub record GroupCollectionStats : Type 0 where
  pub group_id : Text
  pub configured_columns : ℕ
  pub distinct_values_seen : ℕ
  pub inserted_keys : ℕ

-- The values that `SELECT DISTINCT ... IS NOT NULL` yields for a column.
abbrev pub Source : Type 0
Source = ColumnRef → List Value

-- The batches of `fetchmany`: `room` values still fit the current one.
unfoldable pub batches_from : ℕ → ℕ → List Value → List Value → List (List Value)
batches_from size room batch [] = if length batch == 0 then [] else batch ∷ []
batches_from size room batch (v ∷ values) =
    let closed = batches_from size size [] values in
    let kept = batches_from size (room - 1) (batch ++ (v ∷ [])) values in
    if room == 1 then (batch ++ (v ∷ [])) ∷ closed else kept

unfoldable pub fetch_batches : ℕ → List Value → List (List Value)
unfolding batches_from
fetch_batches size values = batches_from size size [] values

-- `except Exception: raise PolicyError`, around the work on a column.
abbrev pub as_policy_error : {A : Type 0} → Result A → Result A
as_policy_error (ok a) = ok a
as_policy_error (err e) = err policy_error

module _ (u : Unicode) (crypto : Crypto) (secret : Bytes) (source : Source) (fetch_size : ℕ) where
  -- The key of one value.
  unfoldable pub key_of : Text → ConsistencyGroup → Value → Result Text
  key_of group_id group raw_value =
      elim (normalize u raw_value (normalization_value group.normalization) group.allow_empty) [
        | err e ↦ err policy_error
        | ok normalized ↦ digest crypto secret group_id normalized
      ]

  -- The loop over the rows of a batch.
  unfoldable pub keys_of : Text → ConsistencyGroup → List Value → Result (List Text)
  keys_of group_id group [] = ok []
  keys_of group_id group (v ∷ values) = elim (key_of group_id group v) [
    | err e ↦ err e
    | ok k ↦ elim (keys_of group_id group values) [ err e ↦ err e | ok keys ↦ ok (k ∷ keys) ]
  ]

  -- One round of the `while` loop: the number of inserted keys.
  unfoldable pub collect_batch : Text → ConsistencyGroup → List Value → Exec Registry ℕ
  collect_batch group_id group values r = elim (keys_of group_id group values) [
    | err e ↦ (err e, r)
    | ok keys ↦ insert_source_keys group_id keys r
  ]

  unfoldable pub collect_batches : Text → ConsistencyGroup → List (List Value) → Exec Registry ℕ
  collect_batches group_id group [] r = (ok 0, r)
  collect_batches group_id group (batch ∷ batches) r =
      let (result, r') = collect_batch group_id group batch r in
      let (more, r'') = collect_batches group_id group batches r' in
      elim result [
        | err e ↦ (err e, r')
        | ok inserted ↦ elim more [
          | err e ↦ (err e, r'')
          | ok others ↦ (ok (inserted + others), r'')
        ]
      ]

  -- The work on a column, with its errors as policy errors.
  unfoldable pub collect_column : Text → ConsistencyGroup → ColumnRef → Exec Registry ℕ
  collect_column group_id group column r =
      let (result, r') =
        collect_batches group_id group (fetch_batches fetch_size (source column)) r in
      (as_policy_error result, r')

  -- The loop over the columns of a group: the values seen and the keys inserted.
  unfoldable pub collect_columns : Text → ConsistencyGroup → List ColumnRef → Exec Registry (ℕ × ℕ)
  collect_columns group_id group [] r = (ok (0, 0), r)
  collect_columns group_id group (column ∷ columns) r =
      let (result, r') = collect_column group_id group column r in
      let (more, r'') = collect_columns group_id group columns r' in
      elim result [
        | err e ↦ (err e, r')
        | ok inserted ↦ elim more [
          | err e ↦ (err e, r'')
          | ok others ↦ (ok (length (source column) + others.0, inserted + others.1), r'')
        ]
      ]

  -- `collect_mapping_keys`; the dict of the results is the list of its values.
  unfoldable pub collect_mapping_keys : Groups → Exec Registry (List GroupCollectionStats)
  collect_mapping_keys [] r = (ok [], r)
  collect_mapping_keys ((group_id, group) ∷ groups) r =
      let (result, r') = collect_columns group_id group group.columns r in
      let (more, r'') = collect_mapping_keys groups r' in
      elim result [
        | err e ↦ (err e, r')
        | ok counts ↦ elim more [
          | err e ↦ (err e, r'')
          | ok others ↦ (
            ok (
                record {
                  group_id = group_id;
                  configured_columns = length group.columns;
                  distinct_values_seen = counts.0;
                  inserted_keys = counts.1;
                }
                ∷ others),
            r'',
          )
        ]
      ]
