-- ===== src/Verify/Nonintersection/Group.antt =====
-- The verdict of the nonintersection check on one group.
use db_sanitizer.Base.{
  ℕ, ◌≡◌, refl, sym, ap, ◌∙◌, Bool, true, false, not, ◌&&◌, Option, none, some, List, [], ◌∷◌, ◌++◌,
  all, count, is_some, ltb, ◌==◌, arith, inl, inr, Bool-cases,
}
use mathlib.Core.Path.{subst}
use mathlib.Core.List.{append-nil}
use db_sanitizer.Base.Text.{Text, nonempty}
use db_sanitizer.Errors.{Result, ok, err, Result-cases}
use db_sanitizer.Exec.{transaction}
use db_sanitizer.Mapping.HmacKey.{Bytes, Crypto}
use db_sanitizer.Mapping.Normalization.{Unicode, Value, null, str, other}
use db_sanitizer.Mapping.Tables.{MappingRecord, has_key}
use db_sanitizer.Mapping.Registry.{Registry}
use db_sanitizer.Mapping.Registry.Accumulator.{
  actual, add, actual_distinct_count, source_intersection_count, with_accumulator,
}
use db_sanitizer.Mapping.Registry.Accumulator.Multiset.{Represents, Represents-empty}
use db_sanitizer.Mapping.Registry.Accumulator.Intersection.{count_zero_iff}
use db_sanitizer.Policy.Models.{ColumnRef, ConsistencyGroup}
use db_sanitizer.Policy.Names.{is_identifier}
use db_sanitizer.Policy.Schema.{SchemaSnapshot, column_for}
use db_sanitizer.Verify.Connection.{Connection, iter_column_values}
use db_sanitizer.Verify.Nonintersection.{
  GroupHmacStats, digest_of_value, see_columns, sorted_columns, see_group, check_group,
}
use db_sanitizer.Verify.Nonintersection.Seen.{
  prepend, count_invalid, Seen, digests_of, invalid_of, digests_in, invalid_in, missing_in,
  add-Seen, see_columns-Seen,
}

abbrev pub is_clean : GroupHmacStats → Bool
is_clean s = s.intersection_keys == 0 && s.invalid_values == 0 && s.unavailable_columns == 0

module _ (u : Unicode) (crypto : Crypto) (secret : Bytes) (target : Connection)
    (target_snapshot : SchemaSnapshot) (fetch_size : ℕ) (mappings : List MappingRecord) where
  module _ (group_id : Text) (group : ConsistencyGroup) where
    abbrev is_source : Text → Bool
    is_source v = has_key group_id v mappings

    -- A digest that is there, and no source key.
    abbrev pub is_foreign : Result (Option Text) → Bool
    is_foreign (ok (some d)) = not (has_key group_id d mappings)
    is_foreign _ = false

    -- NULL, or a value whose digest is no source key of the group.
    abbrev pub value_clean : Value → Bool
    value_clean null = true
    value_clean v =
        is_foreign
          (digest_of_value u crypto secret target target_snapshot fetch_size group_id group v)

    abbrev pub values_clean : Result (List Value) → Bool
    values_clean (ok values) = all value_clean values
    values_clean (err e) = false

    -- The target has the column, and all its values are clean.
    abbrev pub column_clean : ColumnRef → Bool
    column_clean ref =
        is_some (column_for target_snapshot ref)
        && values_clean (iter_column_values target fetch_size ref)

    abbrev pub group_clean : Bool
    group_clean =
        all column_clean
          (sorted_columns u crypto secret target target_snapshot fetch_size group_id group)

    abbrev free : List Text → Bool
    free digests = all (λ v. not (is_source v)) digests

    free-append : (xs ys : List Text) → free (xs ++ ys) ≡ (free xs && free ys)
    free-append [] ys = refl
    free-append (x ∷ xs) ys = ground (arith, free-append xs ys)

    value-clean :
        (o : Result (Option Text)) (digests : List Text) (n : ℕ)
        → (free (prepend o digests) && count_invalid o n == 0)
          ≡ (is_foreign o && free digests && n == 0)
    value-clean (err e) digests n = ground arith
    value-clean (ok none) digests n = ground arith
    value-clean (ok (some d)) digests n = ground arith

    module _ (r : Registry) where
      abbrev seen_values : List Value → List Text
      seen_values values =
          digests_of u crypto secret target target_snapshot fetch_size group_id group r values

      abbrev bad_values : List Value → ℕ
      bad_values values =
          invalid_of u crypto secret target target_snapshot fetch_size group_id group r values

      abbrev seen_columns : List ColumnRef → List Text
      seen_columns columns =
          digests_in u crypto secret target target_snapshot fetch_size group_id group r columns

      abbrev bad_columns : List ColumnRef → ℕ
      bad_columns columns =
          invalid_in u crypto secret target target_snapshot fetch_size group_id group r columns

      abbrev lost_columns : List ColumnRef → ℕ
      lost_columns columns =
          missing_in u crypto secret target target_snapshot fetch_size group_id group r columns

      values-clean :
          (values : List Value)
          → (free (seen_values values) && bad_values values == 0) ≡ all value_clean values
      values-clean [] = refl
      values-clean (null ∷ values) = ground (arith, values-clean values)
      values-clean (str x ∷ values) = ground (
        arith,
        value-clean
            (digest_of_value u crypto secret target target_snapshot fetch_size group_id group
              (str x))
            (seen_values values) (bad_values values),
        values-clean values,
      )
      values-clean (other x ∷ values) = ground (
        arith,
        value-clean
            (digest_of_value u crypto secret target target_snapshot fetch_size group_id group
              (other x))
            (seen_values values) (bad_values values),
        values-clean values,
      )

      columns-clean :
          (columns : List ColumnRef)
          → (free (seen_columns columns) && bad_columns columns == 0 && lost_columns columns == 0)
            ≡ all column_clean columns
      columns-clean [] = refl
      columns-clean (ref ∷ columns) = elim (Bool-cases (is_some (column_for target_snapshot ref))) [
        | inr gone ↦ ground (arith, columns-clean columns)
        | inl there ↦ elim (Result-cases (iter_column_values target fetch_size ref)) [
          | inr (e, x) ↦ ground (arith, columns-clean columns)
          | inl (values, x) ↦ ground (
            arith,
            columns-clean columns,
            values-clean values,
            free-append (seen_values values) (seen_columns columns),
          )
        ]
      ]

    see_group-clean :
        (r t : Registry) (stat : GroupHmacStats)
        → r.mappings ≡ mappings
        → r.work ≡ []
        → see_group u crypto secret target target_snapshot fetch_size group_id group r
          ≡ (ok stat, t)
        → (is_clean stat ≡ group_clean) × (t.mappings ≡ mappings)
    unfolding see_group actual_distinct_count source_intersection_count
    see_group-clean r t stat m fresh h =
        let columns =
          sorted_columns u crypto secret target target_snapshot fetch_size group_id group in
        let found =
          see_columns u crypto secret target target_snapshot fetch_size group_id group columns [] 0
            0 r in
        let start : Seen u crypto secret target target_snapshot fetch_size group_id group r [] []
            r =
          record {
            added_ones = [];
            represents = subst (Represents [] []) (sym fresh) Represents-empty;
            in_order = refl;
            same_mappings = refl;
          } in
        elim (Result-cases found.0) [
          | inr (e, x) ↦ absurd (ground arith)
          | inl ((batch, i, l), x) ↦
              (let (seen, bad, lost) =
                  see_columns-Seen u crypto secret target target_snapshot fetch_size group_id group
                    r columns [] [] batch 0 0 i l r found.1 start (ap (λ o. (o, found.1)) x) in
                let rest = add group_id actual batch found.1 in
                elim (Result-cases rest.0) [
                  | inr (e, y) ↦ absurd (ground arith)
                  | inl (done, y) ↦
                      (let all_seen =
                          add-Seen u crypto secret target target_snapshot fetch_size group_id group
                            r (seen_columns r columns) batch found.1 rest.1 seen
                            (ap (λ o. (o, rest.1)) y) in
                        let q : rest.1 ≡ t = ground arith in
                        let same = all_seen.same_mappings ∙ m in
                        let zero_hits =
                          count_zero_iff is_source [] all_seen.added_ones rest.1.work
                            all_seen.represents in
                        let whole = sym (append-nil all_seen.added_ones) ∙ all_seen.in_order in
                        let hits_in : List MappingRecord → ℕ = λ ms.
                          count (λ w. ltb 0 w.actual_count && has_key group_id w.value_hmac ms)
                            rest.1.work in
                        let counted : stat.intersection_keys ≡ hits_in rest.1.mappings =
                          ground arith in
                        (
                          ground (
                            arith,
                            counted ∙ ap hits_in same,
                            zero_hits,
                            ap free whole,
                            bad,
                            lost,
                            columns-clean r columns,
                          ),
                          subst (λ o. o.mappings ≡ mappings) q same,
                        ))
                ])
        ]

    pub check_group-clean :
        (r t : Registry) (stat : GroupHmacStats)
        → r.mappings ≡ mappings
        → check_group u crypto secret target target_snapshot fetch_size group_id group r
          ≡ (ok stat, t)
        → (is_clean stat ≡ group_clean) × (t.mappings ≡ mappings)
    unfolding check_group with_accumulator transaction
    check_group-clean r t stat m h =
        let cleared : Registry = record r { work = [] } in
        let block =
          see_group u crypto secret target target_snapshot fetch_size group_id group cleared in
        elim (Bool-cases (nonempty group_id)) [
          | inr unnamed ↦ absurd (ground arith)
          | inl named ↦ elim (Result-cases block.0) [
            | inr (e, x) ↦ absurd (ground arith)
            | inl (found, x) ↦ elim (Bool-cases (is_identifier group_id)) [
              | inr unsafe ↦ absurd (ground arith)
              | inl safe ↦
                  (let (clean, same) =
                      see_group-clean cleared block.1 found m refl (ap (λ o. (o, block.1)) x) in
                    let q : found ≡ stat = ground arith in
                    let q' : block.1.mappings ≡ t.mappings = ground arith in
                    (ap is_clean (sym q) ∙ clean, sym q' ∙ same))
            ]
          ]
        ]
