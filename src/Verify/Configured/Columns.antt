-- ===== src/Verify/Configured/Columns.antt =====
-- The verdict of `check_configured_mappings`, column by column.
use db_sanitizer.Base.{
  ℕ, ◌+◌, ◌≡◌, ◌↔◌, refl, sym, ap, true, false, Option, none, some, List, [], ◌∷◌, All, arith, inl,
  inr, Bool-cases,
}
use mathlib.Core.Path.{subst}
use db_sanitizer.Base.Text.{Text}
use db_sanitizer.Errors.{Result, ok, err, Result-cases}
use db_sanitizer.Mapping.HmacKey.{Bytes, Crypto}
use db_sanitizer.Mapping.Normalization.{Unicode}
use db_sanitizer.Mapping.Registry.{Registry}
use db_sanitizer.Policy.Models.{ColumnRef, ConsistencyGroup, Groups, normalization_value}
use db_sanitizer.Policy.Schema.{SchemaSnapshot}
use db_sanitizer.Verify.Checks.{CheckResult, is_pass}
use db_sanitizer.Verify.Connection.{Connection, iter_column_values}
use db_sanitizer.Verify.Keys.{KeyConstraint}
use db_sanitizer.Verify.Mappings.{MappingMetrics, failed, check_mapping_by_primary_key}
use db_sanitizer.Verify.Aggregate.{check_mapping_aggregate}
use db_sanitizer.Verify.Statistics.{Item, configured_items, is_available}
use db_sanitizer.Verify.Configured.{
  Checking, aligned_rows, with_cache, alignment_key, compare_column, check_item, check_items,
  check_configured_mappings, no_metrics,
}
use db_sanitizer.Verify.Configured.Caches.{IsChecking, with_cache-Decides}
use db_sanitizer.Verify.Configured.Masked.{
  rows_masked, AllMasked, aligned-Decides, aggregate-Decides,
}

module _ (u : Unicode) (crypto : Crypto) (secret : Bytes) (source target : Connection)
    (groups : Groups) (source_snapshot target_snapshot : SchemaSnapshot)
    (source_constraints target_constraints : List KeyConstraint) (fetch_size : ℕ)
    (r : Registry) where
  -- By a key, the target rows are the masked source rows; without one, the values are.
  abbrev pub IsMaskedBy : Item → Result (Option KeyConstraint) → Type 0
  IsMaskedBy item (err e) = ⊥
  IsMaskedBy (group_id, (group, ref)) (ok (some c)) =
      rows_masked u crypto secret fetch_size r group_id group (aligned_rows source fetch_size c ref)
        (aligned_rows target fetch_size c ref)
      ≡ true
  IsMaskedBy (group_id, (group, ref)) (ok none) =
      AllMasked u crypto secret fetch_size r group_id group
        (iter_column_values source fetch_size ref) (iter_column_values target fetch_size ref)

  abbrev key_of : ColumnRef → Result (Option KeyConstraint)
  key_of ref =
      alignment_key u crypto secret source target groups source_snapshot target_snapshot
        source_constraints target_constraints fetch_size ref

  -- The column is in both schemas, and masked.
  abbrev pub IsMaskedItem : Item → Type 0
  IsMaskedItem item =
      (is_available source_snapshot target_snapshot item.1.1 ≡ true)
      × IsMaskedBy item (key_of item.1.1)

  abbrev Advances : Type 0 → Checking → Checking → Type 0
  Advances P s t = ((failed t.metrics ≡ false) ↔ ((failed s.metrics ≡ false) × P)) × IsChecking r t

  compare_column-Advances :
      (group_id : Text) (group : ConsistencyGroup) (ref : ColumnRef) (c : Option KeyConstraint)
      (s t : Checking)
      → IsChecking r s
      → compare_column u crypto secret source target groups source_snapshot target_snapshot
          source_constraints target_constraints fetch_size group_id group ref c s
        ≡ (ok tt, t)
      → Advances (IsMaskedBy (group_id, (group, ref)) (ok c)) s t
  unfolding compare_column failed
  compare_column-Advances group_id group ref (some c) s t k h =
      let s' : Checking = record s {
        metrics = record s.metrics { primary_key_columns = s.metrics.primary_key_columns + 1 };
      } in
      let left = aligned_rows source fetch_size c ref in
      let right = aligned_rows target fetch_size c ref in
      elim (Result-cases left) [
        | inr (e, x) ↦ absurd (ground arith)
        | inl (xs, x) ↦ elim (Result-cases right) [
          | inr (e, y) ↦ absurd (ground arith)
          | inl (ys, y) ↦
              (let compare =
                  check_mapping_by_primary_key u crypto secret group_id
                    (normalization_value group.normalization) group.allow_empty xs ys in
                let ended : with_cache group_id compare s' ≡ (ok tt, t) = ground arith in
                let advanced =
                  with_cache-Decides r group_id
                    (rows_masked u crypto secret fetch_size r group_id group (ok xs) (ok ys) ≡ true)
                    compare (aligned-Decides u crypto secret fetch_size r group_id group xs ys) s' t
                    k ended in
                subst
                  (λ o.
                    Advances
                      (rows_masked u crypto secret fetch_size r group_id group o right ≡ true) s t)
                  (sym x)
                  (subst
                    (λ o.
                      Advances
                        (rows_masked u crypto secret fetch_size r group_id group (ok xs) o ≡ true) s
                        t)
                    (sym y) advanced))
        ]
      ]
  compare_column-Advances group_id group ref none s t k h =
      let s' : Checking = record s {
        metrics = record s.metrics { aggregate_columns = s.metrics.aggregate_columns + 1 };
      } in
      let left = iter_column_values source fetch_size ref in
      let right = iter_column_values target fetch_size ref in
      elim (Result-cases left) [
        | inr (e, x) ↦ absurd (ground arith)
        | inl (xs, x) ↦ elim (Result-cases right) [
          | inr (e, y) ↦ absurd (ground arith)
          | inl (ys, y) ↦
              (let compare =
                  check_mapping_aggregate u crypto secret group_id
                    (normalization_value group.normalization) group.allow_empty fetch_size xs ys in
                let ended : with_cache group_id compare s' ≡ (ok tt, t) = ground arith in
                let advanced =
                  with_cache-Decides r group_id
                    (AllMasked u crypto secret fetch_size r group_id group (ok xs) (ok ys)) compare
                    (aggregate-Decides u crypto secret fetch_size r group_id group xs ys) s' t k
                    ended in
                subst
                  (λ o.
                    Advances (AllMasked u crypto secret fetch_size r group_id group o right) s t)
                  (sym x)
                  (subst
                    (λ o.
                      Advances (AllMasked u crypto secret fetch_size r group_id group (ok xs) o) s
                        t)
                    (sym y) advanced))
        ]
      ]

  check_item-Advances :
      (item : Item) (s t : Checking)
      → IsChecking r s
      → check_item u crypto secret source target groups source_snapshot target_snapshot
          source_constraints target_constraints fetch_size item s
        ≡ (ok tt, t)
      → Advances (IsMaskedItem item) s t
  unfolding check_item failed
  check_item-Advances (group_id, (group, ref)) s t k h =
      let item : Item = (group_id, (group, ref)) in
      let counted : MappingMetrics = record s.metrics {
        columns_checked = s.metrics.columns_checked + 1;
      } in
      elim (Bool-cases (is_available source_snapshot target_snapshot ref)) [
        | inr gone ↦
            (let after : Checking = record s {
              metrics = record counted { unavailable_columns = counted.unavailable_columns + 1 };
            } in
              let q : after ≡ t = ground arith in
              let fails : failed after.metrics ≡ true = ground arith in
              subst (Advances (IsMaskedItem item) s) q (
                ((λ f. absurd (ground (arith, f, fails))), (λ f. absurd (ground (arith, f.1.0)))),
                k,
              ))
        | inl there ↦ elim (Result-cases (key_of ref)) [
          | inr (e, x) ↦ absurd (ground arith)
          | inl (c, x) ↦
              (let s' : Checking = record s { metrics = counted } in
                let advanced = compare_column-Advances group_id group ref c s' t k (ground arith) in
                let by_key = subst (λ o. Advances (IsMaskedBy item o) s t) (sym x) advanced in
                (
                  (
                    (λ f. let p = by_key.0.0 f in (p.0, (there, p.1))),
                    (λ f. by_key.0.1 (f.0, f.1.1)),
                  ),
                  by_key.1,
                ))
        ]
      ]

  check_items-Advances :
      (items : List Item) (s t : Checking)
      → IsChecking r s
      → check_items u crypto secret source target groups source_snapshot target_snapshot
          source_constraints target_constraints fetch_size items s
        ≡ (ok tt, t)
      → Advances (All IsMaskedItem items) s t
  unfolding check_items
  check_items-Advances [] s t k h =
      let q : s ≡ t = ap (λ o. o.1) h in subst (Advances Unit s) q (((λ f. (f, tt)), (λ f. f.0)), k)
  check_items-Advances (item ∷ items) s t k h =
      let result =
        check_item u crypto secret source target groups source_snapshot target_snapshot
          source_constraints target_constraints fetch_size item s in
      let s' = result.1 in
      elim (Result-cases result.0) [
        | inr (e, x) ↦ absurd (ground arith)
        | inl (done, x) ↦
            (let (here, ready) = check_item-Advances item s s' k (ap (λ o. (o, s')) x) in
              let (later, ready') = check_items-Advances items s' t ready (ground arith) in
              (
                (
                  (λ f. let p = later.0 f in let q = here.0 p.0 in (q.0, (q.1, p.1))),
                  (λ f. later.1 (here.1 (f.0, f.1.0), f.1.1)),
                ),
                ready',
              ))
      ]

  -- When the check of the mappings returns, it passes exactly when each configured column is in
  -- both schemas and its target is the masked source: row by row where the policy leaves a primary
  -- key of both sides alone, and else as a collection of values, up to a collision of digests. The
  -- mappings are those of the registry before, and the check leaves them as they are.
  pub check_configured_mappings_iff :
      (t : Registry) (result : CheckResult)
      → check_configured_mappings u crypto secret source target groups source_snapshot
          target_snapshot source_constraints target_constraints fetch_size r
        ≡ (ok result, t)
      → ((is_pass result ≡ true) ↔ All IsMaskedItem (configured_items groups))
        × (t.mappings ≡ r.mappings)
  unfolding check_configured_mappings failed
  check_configured_mappings_iff t result h =
      let start : Checking = record { metrics = no_metrics; lookup_caches = []; registry = r } in
      let run =
        check_items u crypto secret source target groups source_snapshot target_snapshot
          source_constraints target_constraints fetch_size (configured_items groups) start in
      elim (Result-cases run.0) [
        | inr (e, x) ↦ absurd (ground arith)
        | inl (done, x) ↦
            (let (verdict, ready) =
                check_items-Advances (configured_items groups) start run.1 (refl, tt)
                  (ap (λ o. (o, run.1)) x) in
              (
                (
                  (λ f. (verdict.0 (ground arith)).1),
                  (λ f. let good = verdict.1 (refl, f) in ground (arith, good)),
                ),
                (let q : run.1.registry ≡ t = ground arith in
                    subst (λ o. o.mappings ≡ r.mappings) q ready.0),
              ))
      ]
