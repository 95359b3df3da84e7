-- ===== src/Verify/Aggregate.antt =====
-- `_check_mapping_aggregate` of db_sanitizer/verify/checks.py, for tables without a key that stays
-- the same. The values that the two cursors yield are arguments.
pub mod Expected
pub mod Totals
pub mod Target
pub mod Verdict
use db_sanitizer.Base.{
  ℕ, suc, ◌+◌, ◌-◌, Bool, true, false, not, Option, none, some, List, [], ◌∷◌, ◌++◌, length, leb,
  if◌then◌else◌,
}
use db_sanitizer.Base.Text.{Text, nonempty}
use db_sanitizer.Errors.{Error, Result, ok, err, registry_error}
use db_sanitizer.Exec.{Exec, pure, ◌>>=◌, ◌>>◌, modify}
use db_sanitizer.Mapping.Normalization.{Unicode, Value, null, str, other}
use db_sanitizer.Mapping.HmacKey.{Bytes, Crypto, digest}
use db_sanitizer.Mapping.Registry.{Registry}
use db_sanitizer.Mapping.Registry.Accumulator.{
  Column, expected, actual, add, clear_work, multiset_difference_count,
}
use db_sanitizer.Verify.Mappings.{
  MappingMetrics, Comparison, row_checked, invalid_target, expected_replacement,
}

-- The registry of the cache is the one that the accumulator writes.
abbrev pub on_registry : {A : Type 0} → Exec Registry A → Exec Comparison A
on_registry m s =
    let (result, r) = m s.cache.registry in
    (result, record s { cache = record s.cache { registry = r } })

abbrev pub checked : Comparison → Comparison
checked s = record s { metrics = row_checked s.metrics }

-- `abs(source_nulls - target_nulls)` and the difference, into the counts.
abbrev pub add_differences : ℕ → ℕ → ℕ → MappingMetrics → MappingMetrics
add_differences source_nulls target_nulls difference m = record m {
  null_mismatches =
      m.null_mismatches + ((source_nulls - target_nulls) + (target_nulls - source_nulls));
  mapping_mismatches = m.mapping_mismatches + difference;
}

module _ (u : Unicode) (crypto : Crypto) (secret : Bytes) (group_id normalization : Text)
    (allow_empty : Bool) (fetch_size : ℕ) where
  -- A digest joins its batch, and a full batch goes to the accumulator: the batch that is left.
  unfoldable pub push : Column → List Text → Text → Exec Comparison (List Text)
  push column batch value_hmac s =
      let (added, s') = on_registry (add group_id column (batch ++ (value_hmac ∷ []))) s in
      if leb fetch_size (length (batch ++ (value_hmac ∷ [])))
      then elim added [ err e ↦ (err e, s') | ok _ ↦ (ok [], s') ]
      else (ok (batch ++ (value_hmac ∷ [])), s)

  -- The digest of the expected replacement of a value, if there is one, joins the batch.
  unfoldable pub expect : List Text → Value → Exec Comparison (List Text)
  expect batch source_value s =
      let (found, s') =
        expected_replacement u crypto secret group_id normalization allow_empty source_value
          (checked s) in
      elim found [
        | err e ↦ (err e, s')
        | ok none ↦ (ok batch, s')
        | ok (some replacement) ↦ elim (digest crypto secret group_id replacement) [
          | err e ↦ (err e, s')
          | ok value_hmac ↦ push expected batch value_hmac s'
        ]
      ]

  -- The loop over the source, with the rest of its last batch: the number of NULLs.
  unfoldable pub expect_all : ℕ → List Text → List Value → Exec Comparison ℕ
  expect_all nulls batch [] s =
      let (added, s') = on_registry (add group_id expected batch) s in
      elim added [ err e ↦ (err e, s') | ok _ ↦ (ok nulls, s') ]
  expect_all nulls batch (null ∷ values) s = expect_all (nulls + 1) batch values (checked s)
  expect_all nulls batch (v ∷ values) s =
      let (left, s') = expect batch v s in
      elim left [ err e ↦ (err e, s') | ok batch' ↦ expect_all nulls batch' values s' ]

  -- The loop over the target.
  unfoldable pub see_all : ℕ → List Text → List Value → Exec Comparison ℕ
  see_all nulls batch [] s =
      let (added, s') = on_registry (add group_id actual batch) s in
      elim added [ err e ↦ (err e, s') | ok _ ↦ (ok nulls, s') ]
  see_all nulls batch (null ∷ values) s = see_all (nulls + 1) batch values s
  see_all nulls batch (other n ∷ values) s =
      see_all nulls batch values (record s { metrics = invalid_target s.metrics })
  see_all nulls batch (str target ∷ values) s = elim (digest crypto secret group_id target) [
    | err e ↦ (err e, s)
    | ok value_hmac ↦
        (let (left, s') = push actual batch value_hmac s in
          elim left [ err e ↦ (err e, s') | ok batch' ↦ see_all nulls batch' values s' ])
  ]

  -- The block under `with registry.verification_hmac_accumulator(group_id)`, and the end.
  unfoldable pub compare_columns : List Value → List Value → Exec Comparison (ℕ × ℕ × ℕ)
  compare_columns source target s =
      let (source_nulls, s') = expect_all 0 [] source s in
      elim source_nulls [
        | err e ↦ (err e, s')
        | ok m ↦
            (let (target_nulls, s'') = see_all 0 [] target s' in
              elim target_nulls [
                | err e ↦ (err e, s'')
                | ok n ↦
                    (let (difference, s''') = on_registry multiset_difference_count s'' in
                      elim difference [ err e ↦ (err e, s''') | ok d ↦ (ok (m, n, d), s''') ])
              ])
      ]

  -- `_check_mapping_aggregate`: the table of the accumulator is cleared before the block and,
  -- however the block ends, after it.
  unfoldable pub check_mapping_aggregate : List Value → List Value → Exec Comparison (Unit {0})
  check_mapping_aggregate source target s =
      let (result, s') = compare_columns source target (on_registry clear_work s).1 in
      let s'' = (on_registry clear_work s').1 in
      if not (nonempty group_id) then (err registry_error, s) else elim result [
        | err e ↦ (err e, s'')
        | ok (m, n, d) ↦ (ok tt, record s'' { metrics = add_differences m n d s''.metrics })
      ]
