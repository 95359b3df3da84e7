-- ===== src/Verify/Configured/Masked.antt =====
-- What `check_mapping_by_primary_key` and `check_mapping_aggregate` decide of one column.
use db_sanitizer.Base.{ℕ, ◌≡◌, Bool, true, false, List, arith}
use db_sanitizer.Base.Text.{Text}
use db_sanitizer.Errors.{Result, ok}
use db_sanitizer.Mapping.HmacKey.{Bytes, Crypto}
use db_sanitizer.Mapping.Normalization.{Unicode, Value}
use db_sanitizer.Mapping.Registry.{Registry}
use db_sanitizer.Mapping.Registry.Accumulator.Tally.{occurrences}
use db_sanitizer.Policy.Models.{ConsistencyGroup, normalization_value}
use db_sanitizer.Verify.Mappings.{Row, check_mapping_by_primary_key}
use db_sanitizer.Verify.Mappings.Rows.{is_masked_column}
use db_sanitizer.Verify.Mappings.Column.{
  check_mapping_by_primary_key_iff, check_mapping_by_primary_key-IsReady,
}
use db_sanitizer.Verify.Aggregate.{check_mapping_aggregate}
use db_sanitizer.Verify.Aggregate.Totals.{nulls_of, all_text, all_mapped, wanted_of, seen_of}
use db_sanitizer.Verify.Aggregate.Verdict.{
  check_mapping_aggregate_iff, check_mapping_aggregate-IsReady,
}
use db_sanitizer.Verify.Configured.Caches.{Decides}

module _ (u : Unicode) (crypto : Crypto) (secret : Bytes) (fetch_size : ℕ) (r : Registry)
    (group_id : Text) (group : ConsistencyGroup) where
  -- The rows of the target are the masked rows of the source.
  abbrev pub rows_masked : Result (List Row) → Result (List Row) → Bool
  rows_masked (ok source) (ok target) =
      is_masked_column u crypto secret group_id (normalization_value group.normalization)
        group.allow_empty r source target
  rows_masked _ _ = false

  -- The values of the target are, in some order, the replacements of those of the source, up to a
  -- collision of digests.
  abbrev pub ValuesMasked : List Value → List Value → Type 0
  ValuesMasked source target =
      (all_mapped u crypto secret group_id (normalization_value group.normalization)
          group.allow_empty fetch_size r source
        ≡ true)
      × (all_text target ≡ true)
      × (nulls_of source ≡ nulls_of target)
      × ((v : Text)
          → occurrences v (
              wanted_of u crypto secret group_id (normalization_value group.normalization)
                group.allow_empty fetch_size r source)
            ≡ occurrences v (
                seen_of u crypto secret group_id (normalization_value group.normalization)
                  group.allow_empty fetch_size r target))

  abbrev pub AllMasked : Result (List Value) → Result (List Value) → Type 0
  AllMasked (ok source) (ok target) = ValuesMasked source target
  AllMasked _ _ = ⊥

  pub aligned-Decides :
      (source target : List Row)
      → Decides r group_id (rows_masked (ok source) (ok target) ≡ true) (
          check_mapping_by_primary_key u crypto secret group_id
            (normalization_value group.normalization)
            group.allow_empty
            source
            target)
  aligned-Decides source target s t k h =
      let n = normalization_value group.normalization in
      let verdict =
        check_mapping_by_primary_key_iff u crypto secret group_id n group.allow_empty r source
          target s t k h in
      (
        ((λ f. (ground (arith, verdict), ground (arith, verdict))), (λ f. ground (arith, verdict))),
        check_mapping_by_primary_key-IsReady u crypto secret group_id n group.allow_empty r source
            target s t k h,
      )

  pub aggregate-Decides :
      (source target : List Value)
      → Decides r group_id (ValuesMasked source target) (
          check_mapping_aggregate u crypto secret group_id
            (normalization_value group.normalization)
            group.allow_empty
            fetch_size
            source
            target)
  aggregate-Decides source target s t k h =
      let n = normalization_value group.normalization in
      let verdict =
        check_mapping_aggregate_iff u crypto secret group_id n group.allow_empty fetch_size r source
          target s t k h in
      (
        (
          (λ f. let a = verdict.0 f in (a.0, (a.1, a.2, a.3, a.4))),
          (λ f. verdict.1 (f.0, f.1.0, f.1.1, f.1.2, f.1.3)),
        ),
        check_mapping_aggregate-IsReady u crypto secret group_id n group.allow_empty fetch_size r
            source target s t k h,
      )
