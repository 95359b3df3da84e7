-- ===== src/Verify/Nonintersection/Clean.antt =====
-- The verdict of `check_source_target_hmac_nonintersection`.
use db_sanitizer.Base.{
  ℕ, ◌≡◌, refl, sym, ap, ◌∙◌, Bool, ◌&&◌, List, [], ◌∷◌, map, sum, all, ◌==◌, arith, inl, inr,
}
use mathlib.Core.Path.{subst}
use db_sanitizer.Base.Sort.{sort}
use db_sanitizer.Base.Text.{text_ltb}
use db_sanitizer.Errors.{ok, Result-cases}
use db_sanitizer.Mapping.HmacKey.{Bytes, Crypto}
use db_sanitizer.Mapping.Normalization.{Unicode}
use db_sanitizer.Mapping.Tables.{MappingRecord}
use db_sanitizer.Mapping.Registry.{Registry}
use db_sanitizer.Policy.Models.{Groups}
use db_sanitizer.Policy.Schema.{SchemaSnapshot}
use db_sanitizer.Verify.Checks.{CheckResult, is_pass}
use db_sanitizer.Verify.Connection.{Connection}
use db_sanitizer.Verify.Nonintersection.{
  GroupHmacStats, check_group, check_groups, check_source_target_hmac_nonintersection,
}
use db_sanitizer.Verify.Nonintersection.Group.{is_clean, group_clean, check_group-clean}

module _ (u : Unicode) (crypto : Crypto) (secret : Bytes) (target : Connection)
    (target_snapshot : SchemaSnapshot) (fetch_size : ℕ) (mappings : List MappingRecord) where
  -- The groups of the policy are clean, one by one.
  abbrev pub groups_clean : Groups → Bool
  groups_clean groups =
      all
        (λ item.
          group_clean u crypto secret target target_snapshot fetch_size mappings item.0 item.1)
        groups

  check_groups-clean :
      (groups : Groups) (r t : Registry) (stats : List GroupHmacStats)
      → r.mappings ≡ mappings
      → check_groups u crypto secret target target_snapshot fetch_size groups r ≡ (ok stats, t)
      → (all is_clean stats ≡ groups_clean groups) × (t.mappings ≡ mappings)
  unfolding check_groups
  check_groups-clean [] r t stats m h =
      let q : [] ≡ stats = ground arith in
      let q' : r ≡ t = ground arith in
      (ap (all is_clean) (sym q), subst (λ o. o.mappings ≡ mappings) q' m)
  check_groups-clean ((group_id, group) ∷ groups) r t stats m h =
      let one = check_group u crypto secret target target_snapshot fetch_size group_id group r in
      let more = check_groups u crypto secret target target_snapshot fetch_size groups one.1 in
      elim (Result-cases one.0) [
        | inr (e, x) ↦ absurd (ground arith)
        | inl (stat, x) ↦ elim (Result-cases more.0) [
          | inr (e, y) ↦ absurd (ground arith)
          | inl (rest, y) ↦
              (let (clean, same) =
                  check_group-clean u crypto secret target target_snapshot fetch_size mappings
                    group_id group r one.1 stat m (ap (λ o. (o, one.1)) x) in
                let (clean', same') =
                  check_groups-clean groups one.1 more.1 rest same (ap (λ o. (o, more.1)) y) in
                let q : stat ∷ rest ≡ stats = ground arith in
                let q' : more.1 ≡ t = ground arith in
                (
                  ap (all is_clean) (sym q) ∙ ground (arith, clean, clean'),
                  subst (λ o. o.mappings ≡ mappings) q' same',
                ))
        ]
      ]

sums_clean :
    (stats : List GroupHmacStats)
    → (sum (map (λ s. s.intersection_keys) stats) == 0
        && sum (map (λ s. s.invalid_values) stats) == 0
        && sum (map (λ s. s.unavailable_columns) stats) == 0)
      ≡ all is_clean stats
sums_clean [] = refl
sums_clean (s ∷ stats) = ground (arith, sums_clean stats)

-- When the nonintersection check returns, it passes exactly when the target has each configured
-- column, and each of its values that is not NULL has a digest, under the normalization of its
-- group, that is no source key of that group. The mappings are as before.
pub check_source_target_hmac_nonintersection_iff :
    (u : Unicode) (crypto : Crypto) (secret : Bytes) (target : Connection)
    (target_snapshot : SchemaSnapshot) (fetch_size : ℕ) (groups : Groups) (r t : Registry)
    (stats : List GroupHmacStats) (result : CheckResult)
    → check_source_target_hmac_nonintersection u crypto secret target target_snapshot fetch_size
        groups r
      ≡ (ok (stats, result), t)
    → (is_pass result
        ≡ groups_clean u crypto secret target target_snapshot fetch_size r.mappings
            (sort (λ a b. text_ltb a.0 b.0) groups))
      × (t.mappings ≡ r.mappings)
unfolding check_source_target_hmac_nonintersection
check_source_target_hmac_nonintersection_iff u crypto secret target target_snapshot fetch_size
      groups r t stats result h =
    let sorted = sort (λ a b. text_ltb a.0 b.0) groups in
    let block = check_groups u crypto secret target target_snapshot fetch_size sorted r in
    elim (Result-cases block.0) [
      | inr (e, x) ↦ absurd (ground arith)
      | inl (found, x) ↦
          (let (clean, same) =
              check_groups-clean u crypto secret target target_snapshot fetch_size r.mappings sorted
                r block.1 found refl (ap (λ o. (o, block.1)) x) in
            let q : block.1 ≡ t = ground arith in
            (ground (arith, sums_clean found, clean), subst (λ o. o.mappings ≡ r.mappings) q same))
    ]
