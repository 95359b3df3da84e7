-- ===== src/Verify/Mappings/Column.antt =====
-- `_compare_mapping_values` and `_check_mapping_by_primary_key` against the masked source column.
use db_sanitizer.Base.{
  ◌≡◌, refl, Bool, false, not, ◌||◌, Option, none, some, List, [], ◌∷◌, arith, Bool-cases, inl, inr,
  sym, ap, ◌∙◌, ◌⊎◌,
}
use mathlib.Core.Path.{subst}
use db_sanitizer.Base.Text.{Text}
use db_sanitizer.Errors.{Result, ok, err, Result-cases}
use db_sanitizer.Mapping.Normalization.{Unicode, Value, null, str, other}
use db_sanitizer.Mapping.HmacKey.{Bytes, Crypto}
use db_sanitizer.Mapping.Registry.{Registry}
use db_sanitizer.Verify.Mappings.{
  MappingMetrics, failed, Comparison, mapping_mismatch, key_mismatch, row_checked, key_eq, Row,
  compare_target, compare_mapping_values, compare_rows, check_mapping_by_primary_key,
}
use db_sanitizer.Verify.Mappings.Rows.{
  failed-null_mismatch, failed-mapping_mismatch, failed-unchanged_value, failed-invalid_target,
  failed-key_mismatch, failed-row_checked, mapped_text, is_image, is_masked, is_masked_column,
  IsReady, expected_of, expected-cache, expected-none, expected-some,
}

module _ (u : Unicode) (crypto : Crypto) (secret : Bytes) (group_id normalization : Text)
    (allow_empty : Bool) (r : Registry) where
  abbrev image : Value → Value → Text → Bool
  image source_value target_value x =
      is_image u crypto secret group_id normalization allow_empty r source_value target_value x

  abbrev masked : Value → Value → Bool
  masked source_value target_value =
      is_masked u crypto secret group_id normalization allow_empty r source_value target_value

  abbrev Ready : Comparison → Type 0
  Ready s = IsReady u crypto secret group_id normalization allow_empty r s

  abbrev expected : Value → Comparison → Result (Option Text) × Comparison
  expected value s = expected_of u crypto secret group_id normalization allow_empty r value s

  target-failed :
      (source_value target_value : Value) (x : Text) (m : MappingMetrics)
      → failed (compare_target source_value target_value x m)
        ≡ (failed m || not (image source_value target_value x))
  unfolding compare_target
  target-failed source_value null x m = ground (arith, failed-null_mismatch m)
  target-failed source_value (other n) x m = ground (arith, failed-invalid_target m)
  target-failed source_value (str t) x m = ground (
    arith,
    failed-mapping_mismatch m,
    failed-unchanged_value m,
    failed-unchanged_value (mapping_mismatch m),
  )

  abbrev compared : Value → Value → Comparison → Result (Unit {0}) × Comparison
  compared v w s = compare_mapping_values u crypto secret group_id normalization allow_empty v w s

  compared-cache :
      (v w : Value) (s : Comparison)
      → ((compared v w s).1.cache ≡ s.cache) ⊎ ((compared v w s).1.cache ≡ (expected v s).1.cache)
  unfolding compare_mapping_values
  compared-cache null null s = inl refl
  compared-cache null (str t) s = inl refl
  compared-cache null (other n) s = inl refl
  compared-cache (str t) w s = inr (ground arith)
  compared-cache (other n) w s = inr (ground arith)

  compared-Ready : (v w : Value) (s : Comparison) → Ready s → Ready (compared v w s).1
  compared-Ready v w s k = elim (compared-cache v w s) [
    | inl same ↦ subst (λ c. Ready (record s { cache = c })) (sym same) k
    | inr same ↦
        subst (λ c. Ready (record s { cache = c })) (sym same)
          (expected-cache u crypto secret group_id normalization allow_empty r v s k)
  ]

  present-failed :
      (v w : Value) (s : Comparison)
      → Ready s
      → (masked v w ≡ elim (mapped_text u crypto secret group_id normalization allow_empty r v) [
        | none ↦ false
        | some x ↦ image v w x
      ])
      → (compared v w s ≡ (
          let (found, s') = expected v s in
          elim found [
            | err e ↦ (err e, s')
            | ok none ↦ (ok tt, s')
            | ok (some x) ↦ (ok tt, record s' { metrics = compare_target v w x s'.metrics })
          ]))
      → (compared v w s).0 ≡ ok tt
      → failed (compared v w s).1.metrics ≡ (failed s.metrics || not (masked v w))
  present-failed v w s k m c h = elim (Result-cases (expected v s).0) [
    | inr (e, x) ↦ ground arith
    | inl (none, x) ↦
        ground (arith, expected-none u crypto secret group_id normalization allow_empty r v s k x)
    | inl (some text, x) ↦ ground (
      arith,
      expected-some u crypto secret group_id normalization allow_empty r v s text k x,
      target-failed v w text s.metrics,
    )
  ]

  compared-failed :
      (v w : Value) (s : Comparison)
      → Ready s
      → (compared v w s).0 ≡ ok tt
      → failed (compared v w s).1.metrics ≡ (failed s.metrics || not (masked v w))
  unfolding compare_mapping_values
  compared-failed null null s k h = ground arith
  compared-failed null (str t) s k h = ground (arith, failed-null_mismatch s.metrics)
  compared-failed null (other n) s k h = ground (arith, failed-null_mismatch s.metrics)
  compared-failed (str t) w s k h = present-failed (str t) w s k refl refl h
  compared-failed (other n) w s k h = present-failed (other n) w s k refl refl h

  abbrev masked_column : List Row → List Row → Bool
  masked_column source target =
      is_masked_column u crypto secret group_id normalization allow_empty r source target

  abbrev rows_compared : List Row → List Row → Comparison → Result (Unit {0}) × Comparison
  rows_compared source target s =
      compare_rows u crypto secret group_id normalization allow_empty source target s

  compare_rows-failed :
      (source target : List Row) (s : Comparison)
      → Ready s
      → (rows_compared source target s).0 ≡ ok tt
      → failed (rows_compared source target s).1.metrics
        ≡ (failed s.metrics || not (masked_column source target))
  unfolding compare_rows
  compare_rows-failed [] [] s k h = ground arith
  compare_rows-failed [] (row ∷ target) s k h =
      let s' : Comparison = record s { metrics = key_mismatch s.metrics } in
      ground (arith, compare_rows-failed [] target s' k h, failed-key_mismatch s.metrics)
  compare_rows-failed (row ∷ source) [] s k h =
      let s' : Comparison = record s { metrics = key_mismatch s.metrics } in
      ground (arith, compare_rows-failed source [] s' k h, failed-key_mismatch s.metrics)
  compare_rows-failed ((i, v) ∷ source) ((j, w) ∷ target) s k h = elim (Bool-cases (key_eq i j)) [
    | inr apart ↦
        (let s' : Comparison = record s { metrics = key_mismatch s.metrics } in
          ground (
            arith,
            compare_rows-failed source target s' k (ground arith),
            failed-key_mismatch s.metrics,
          ))
    | inl aligned ↦
        (let s' : Comparison = record s { metrics = row_checked s.metrics } in
          elim (Result-cases (compared v w s').0) [
            | inr (e, x) ↦ ground arith
            | inl (done, x) ↦ ground (
              arith,
              compared-failed v w s' k x,
              failed-row_checked s.metrics,
              compare_rows-failed source target (compared v w s').1 (compared-Ready v w s' k)
                  (ground arith),
            )
          ])
  ]

  -- When the row-by-row check of a column returns, from a cache of the group that answers as the
  -- registry, the counts say that the run has failed exactly when they said so before, or the rows
  -- of the target are not, one for one and under equal keys, the masked rows of the source: NULL
  -- for NULL, and else the replacement of the digest, which is not the source value itself.
  pub check_mapping_by_primary_key_iff :
      (source target : List Row) (s t : Comparison)
      → IsReady u crypto secret group_id normalization allow_empty r s
      → check_mapping_by_primary_key u crypto secret group_id normalization allow_empty source
          target s
        ≡ (ok tt, t)
      → failed t.metrics ≡ (
          failed s.metrics
          || not
              (is_masked_column u crypto secret group_id normalization allow_empty r source target))
  unfolding check_mapping_by_primary_key
  check_mapping_by_primary_key_iff source target s t k h =
      elim (Result-cases (rows_compared source target s).0) [
        | inr (e, x) ↦ cc
        | inl (done, x) ↦ ground (arith, compare_rows-failed source target s k x)
      ]

  compare_rows-Ready :
      (source target : List Row) (s : Comparison)
      → Ready s
      → (rows_compared source target s).0 ≡ ok tt
      → Ready (rows_compared source target s).1
  unfolding compare_rows
  compare_rows-Ready [] [] s k h = k
  compare_rows-Ready [] (row ∷ target) s k h =
      compare_rows-Ready [] target (record s { metrics = key_mismatch s.metrics }) k h
  compare_rows-Ready (row ∷ source) [] s k h =
      compare_rows-Ready source [] (record s { metrics = key_mismatch s.metrics }) k h
  compare_rows-Ready ((i, v) ∷ source) ((j, w) ∷ target) s k h =
      let apart : Comparison = record s { metrics = key_mismatch s.metrics } in
      let aligned : Comparison = record s { metrics = row_checked s.metrics } in
      let after = (compared v w aligned).1 in
      elim (Bool-cases (key_eq i j)) [
        | inr different ↦
            (let q : rows_compared source target apart
                  ≡ rows_compared ((i, v) ∷ source) ((j, w) ∷ target) s =
                ground arith in
              subst (λ o. Ready o.1) q
                (compare_rows-Ready source target apart k (ap (λ o. o.0) q ∙ h)))
        | inl same ↦ elim (Result-cases (compared v w aligned).0) [
          | inr (e, x) ↦ absurd (ground arith)
          | inl (done, x) ↦
              (let q : rows_compared source target after
                    ≡ rows_compared ((i, v) ∷ source) ((j, w) ∷ target) s =
                  ground arith in
                subst (λ o. Ready o.1) q
                  (compare_rows-Ready source target after (compared-Ready v w aligned k)
                    (ap (λ o. o.0) q ∙ h)))
        ]
      ]

  -- The cache stays one that answers as the registry.
  pub check_mapping_by_primary_key-IsReady :
      (source target : List Row) (s t : Comparison)
      → IsReady u crypto secret group_id normalization allow_empty r s
      → check_mapping_by_primary_key u crypto secret group_id normalization allow_empty source
          target s
        ≡ (ok tt, t)
      → IsReady u crypto secret group_id normalization allow_empty r t
  unfolding check_mapping_by_primary_key
  check_mapping_by_primary_key-IsReady source target s t k h =
      elim (Result-cases (rows_compared source target s).0) [
        | inr (e, x) ↦ cc
        | inl (done, x) ↦
            (let q : (rows_compared source target s).1 ≡ t = ground arith in
              subst Ready q (compare_rows-Ready source target s k x))
      ]
