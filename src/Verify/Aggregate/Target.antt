-- ===== src/Verify/Aggregate/Target.antt =====
-- The target side of `_check_mapping_aggregate`: the digests that it adds, and its counts.
use db_sanitizer.Base.{ℕ, ◌+◌, ◌≡◌, Bool, not, ◌||◌, List, [], ◌∷◌, ◌++◌, arith, inl, inr, ap, ◌∙◌}
use mathlib.Core.Path.{subst}
use db_sanitizer.Base.Text.{Text}
use db_sanitizer.Errors.{ok, Result-cases}
use db_sanitizer.Mapping.Normalization.{Unicode, Value, null, str, other}
use db_sanitizer.Mapping.HmacKey.{Bytes, Crypto, digest}
use db_sanitizer.Mapping.Registry.{Registry}
use db_sanitizer.Mapping.Registry.Accumulator.{Column, actual}
use db_sanitizer.Verify.Mappings.{Comparison, failed, invalid_target}
use db_sanitizer.Verify.Mappings.Rows.{failed-invalid_target}
use db_sanitizer.Verify.Aggregate.{push, see_all}
use db_sanitizer.Verify.Aggregate.Expected.{Holds, Ready, push-Moved}
use db_sanitizer.Verify.Aggregate.Totals.{nulls_of, all_text, seen_of, Total, last-Total, moved_on}

module _ (u : Unicode) (crypto : Crypto) (secret : Bytes) (group_id normalization : Text)
    (allow_empty : Bool) (fetch_size : ℕ) (r : Registry) where
  abbrev pub IsSoFar : Comparison → Type 0
  IsSoFar s = Ready u crypto secret group_id normalization allow_empty fetch_size r s

  abbrev Totals : Column → List Text → List Text → ℕ → ℕ → Comparison → Type 0
  Totals c values others n m t =
      Total u crypto secret group_id normalization allow_empty fetch_size r c values others n m t

  abbrev pub digests_seen : List Value → List Text
  digests_seen target =
      seen_of u crypto secret group_id normalization allow_empty fetch_size r target

  pub see_all-Total :
      (target : List Value) (seen wanted batch : List Text) (nulls n : ℕ) (s t : Comparison)
      → IsSoFar s
      → Holds actual seen wanted s.cache.registry.work
      → see_all u crypto secret group_id normalization allow_empty fetch_size nulls batch target s
        ≡ (ok n, t)
      → Totals actual (seen ++ (batch ++ digests_seen target)) wanted n (nulls + nulls_of target) t
        × (failed t.metrics ≡ (failed s.metrics || not (all_text target)))
  unfolding see_all
  see_all-Total [] seen wanted batch nulls n s t k w h =
      last-Total u crypto secret group_id normalization allow_empty fetch_size r actual seen wanted
        batch nulls n s t k w h
  see_all-Total (null ∷ target) seen wanted batch nulls n s t k w h =
      let (total, verdict) = see_all-Total target seen wanted batch (nulls + 1) n s t k w h in
      (
        record {
          holds = total.holds;
          counted = ground (arith, total.counted);
          ready = total.ready;
        },
        verdict,
      )
  see_all-Total (other y ∷ target) seen wanted batch nulls n s t k w h =
      let s' = record s { metrics = invalid_target s.metrics } in
      let (total, verdict) = see_all-Total target seen wanted batch nulls n s' t k w h in
      (
        record { holds = total.holds; counted = total.counted; ready = total.ready },
        ground (arith, verdict, failed-invalid_target s.metrics),
      )
  see_all-Total (str x ∷ target) seen wanted batch nulls n s t k w h =
      elim (Result-cases (digest crypto secret group_id x)) [
        | inr (e, y) ↦ absurd (ground arith)
        | inl (d, y) ↦
            (let result =
                push u crypto secret group_id normalization allow_empty fetch_size actual batch d
                  s in
              elim (Result-cases result.0) [
                | inr (e, z) ↦ absurd (ground arith)
                | inl (batch', z) ↦
                    (let (moved, same) =
                        push-Moved u crypto secret group_id normalization allow_empty fetch_size r
                          actual seen wanted batch batch' d s result.1 k w
                          (ap (λ o. (o, result.1)) z) in
                      let (total, verdict) =
                        see_all-Total target moved.added_ones wanted batch' nulls n result.1 t
                          moved.ready moved.represents (ground arith) in
                      let more : d ∷ digests_seen target ≡ digests_seen (str x ∷ target) =
                        ground (arith, y) in
                      let order =
                        moved_on u crypto secret group_id normalization allow_empty fetch_size r
                          moved.added_ones batch' seen batch (d ∷ []) (digests_seen target)
                          moved.in_order
                        ∙ ap (λ l. seen ++ (batch ++ l)) more in
                      (
                        record {
                          holds =
                              subst (λ l. Holds actual l wanted t.cache.registry.work) order
                                total.holds;
                          counted = total.counted;
                          ready = total.ready;
                        },
                        ground (arith, verdict, ap failed same),
                      ))
              ])
      ]
