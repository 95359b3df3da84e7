-- ===== src/Verify/Aggregate/Verdict.antt =====
-- The verdict of `_check_mapping_aggregate`.
use db_sanitizer.Base.{
  ℕ, map, sum, ◌≡◌, ◌↔◌, refl, Bool, true, false, not, ◌||◌, List, [], arith, inl, inr, sym, ap,
  Bool-cases,
}
use mathlib.Core.Path.{subst}
use db_sanitizer.Base.Text.{Text, nonempty}
use db_sanitizer.Errors.{ok, Result-cases}
use db_sanitizer.Mapping.Normalization.{Unicode, Value}
use db_sanitizer.Exec.{transaction}
use db_sanitizer.Mapping.HmacKey.{Bytes, Crypto}
use db_sanitizer.Mapping.Registry.{Registry}
use db_sanitizer.Mapping.Registry.Accumulator.{
  clear_work, abs_difference, multiset_difference_count,
}
use db_sanitizer.Mapping.Registry.Accumulator.Tally.{occurrences}
use db_sanitizer.Mapping.Registry.Accumulator.Multiset.{
  Represents, Represents-empty, difference_zero_iff,
}
use db_sanitizer.Verify.LookupCache.Answers.{IsFaithful}
use db_sanitizer.Verify.Mappings.Rows.{IsReady, IsReadyCache}
use db_sanitizer.Verify.Mappings.{Comparison, MappingMetrics, failed}
use db_sanitizer.Verify.Aggregate.{
  on_registry, expect_all, see_all, add_differences, compare_columns, check_mapping_aggregate,
}
use db_sanitizer.Verify.Aggregate.Expected.{Holds, AllAnswered-mappings, Ready}
use db_sanitizer.Verify.Aggregate.Totals.{
  nulls_of, all_text, all_mapped, wanted_of, seen_of, expect_all-Total,
}
use db_sanitizer.Verify.Aggregate.Target.{see_all-Total}

failed-add_differences :
    (m n d : ℕ) (metrics : MappingMetrics)
    → (failed (add_differences m n d metrics) ≡ false)
      ↔ ((failed metrics ≡ false) × (m ≡ n) × (d ≡ 0))
unfolding failed
failed-add_differences m n d metrics =
    (λ h. (ground arith, ground arith, ground arith), (λ h. ground (arith, h.0, h.1, h.2)))

module _ (u : Unicode) (crypto : Crypto) (secret : Bytes) (group_id normalization : Text)
    (allow_empty : Bool) (fetch_size : ℕ) (r : Registry) where
  abbrev IsSoFar : Comparison → Type 0
  IsSoFar s = Ready u crypto secret group_id normalization allow_empty fetch_size r s

  abbrev pub digests_seen : List Value → List Text
  digests_seen target =
      seen_of u crypto secret group_id normalization allow_empty fetch_size r target

  -- What the two columns and the counts before must be for the verdict to be good.
  abbrev pub Agrees : List Value → List Value → Comparison → Type 0
  Agrees source target s =
      (failed s.metrics ≡ false)
      × (all_mapped u crypto secret group_id normalization allow_empty fetch_size r source ≡ true)
      × (all_text target ≡ true)
      × (nulls_of source ≡ nulls_of target)
      × ((v : Text)
          → occurrences v
              (wanted_of u crypto secret group_id normalization allow_empty fetch_size r source)
            ≡ occurrences v (digests_seen target))

  -- What the block finds.
  record Found (source target : List Value) (m n d : ℕ) (s t : Comparison) : Type 0 where
    source_nulls : m ≡ nulls_of source
    target_nulls : n ≡ nulls_of target
    difference : (d ≡ 0) ↔ (
        (v : Text)
        → occurrences v
            (wanted_of u crypto secret group_id normalization allow_empty fetch_size r source)
          ≡ occurrences v (digests_seen target))
    verdict : failed t.metrics ≡ (
        failed s.metrics
        || not (all_mapped u crypto secret group_id normalization allow_empty fetch_size r source)
        || not (all_text target))
    ready : IsSoFar t

  -- The table of the accumulator is nothing that the cache reads.
  clear-IsReady : (s : Comparison) → IsSoFar s → IsSoFar (on_registry clear_work s).1
  unfolding transaction
  clear-IsReady s k =
      let cleared = (on_registry clear_work s).1 in
      let faithful : IsFaithful cleared.cache = (
        AllAnswered-mappings s.cache.registry cleared.cache.registry s.cache.group_id s.cache.values
            refl k.0.0,
        k.0.1,
        k.0.2,
      ) in
      (faithful, k.1, k.2)

  compare_columns-Found :
      (source target : List Value) (m n d : ℕ) (s t : Comparison)
      → IsSoFar s
      → s.cache.registry.work ≡ []
      → compare_columns u crypto secret group_id normalization allow_empty fetch_size source target
          s
        ≡ (ok (m, n, d), t)
      → Found source target m n d s t
  unfolding compare_columns Holds multiset_difference_count
  compare_columns-Found source target m n d s t k fresh h =
      let one =
        expect_all u crypto secret group_id normalization allow_empty fetch_size 0 [] source s in
      let two =
        see_all u crypto secret group_id normalization allow_empty fetch_size 0 [] target one.1 in
      elim (Result-cases one.0) [
        | inr (e, x) ↦ absurd (ground arith)
        | inl (m', x) ↦ elim (Result-cases two.0) [
          | inr (e, y) ↦ absurd (ground arith)
          | inl (n', y) ↦
              (let (wanted, verdict) =
                  expect_all-Total u crypto secret group_id normalization allow_empty fetch_size r
                    source [] [] [] 0 m' s one.1 k
                    (subst (Represents [] []) (sym fresh) Represents-empty)
                    (ap (λ o. (o, one.1)) x) in
                let (seen, verdict') =
                  see_all-Total u crypto secret group_id normalization allow_empty fetch_size r
                    target []
                    (wanted_of u crypto secret group_id normalization allow_empty fetch_size r
                      source)
                    [] 0 n' one.1 two.1 wanted.ready wanted.holds (ap (λ o. (o, two.1)) y) in
                let sum_of : sum (map abs_difference two.1.cache.registry.work) ≡ d =
                  ground arith in
                let expects =
                  wanted_of u crypto secret group_id normalization allow_empty fetch_size r
                    source in
                record {
                  source_nulls = ground (arith, wanted.counted);
                  target_nulls = ground (arith, seen.counted);
                  difference =
                      subst
                        (λ k. (k ≡ 0) ↔ (
                          (v : Text) → occurrences v expects ≡ occurrences v (digests_seen target)))
                        sum_of
                        (difference_zero_iff expects (digests_seen target) two.1.cache.registry.work
                          seen.holds);
                  verdict = ground (arith, verdict, verdict');
                  ready = (let q : two.1 ≡ t = ground arith in subst IsSoFar q seen.ready);
                })
        ]
      ]

  verdict_iff :
      (source target : List Value) (m n d : ℕ) (s t : Comparison)
      → Found source target m n d s t
      → (failed (add_differences m n d t.metrics) ≡ false) ↔ Agrees source target s
  verdict_iff source target m n d s t f =
      let counts = failed-add_differences m n d t.metrics in
      (
        (λ h.
            let (before, nulls, none_left) = counts.0 h in
            (
              ground (arith, f.verdict, before),
              ground (arith, f.verdict, before),
              ground (arith, f.verdict, before),
              ground (arith, f.source_nulls, f.target_nulls, nulls),
              f.difference.0 none_left,
            )),
        (λ h. counts.1 (
          ground (arith, f.verdict, h.0, h.1, h.2),
          ground (arith, f.source_nulls, f.target_nulls, h.3),
          f.difference.1 h.4,
        )),
      )

  check_mapping_aggregate-Found :
      (source target : List Value) (s t : Comparison)
      → IsSoFar s
      → check_mapping_aggregate u crypto secret group_id normalization allow_empty fetch_size source
          target s
        ≡ (ok tt, t)
      → ((failed t.metrics ≡ false) ↔ Agrees source target s) × IsSoFar t
  unfolding check_mapping_aggregate transaction
  check_mapping_aggregate-Found source target s t k h =
      let start = (on_registry clear_work s).1 in
      let block =
        compare_columns u crypto secret group_id normalization allow_empty fetch_size source target
          start in
      elim (Bool-cases (nonempty group_id)) [
        | inr unnamed ↦ absurd (ground arith)
        | inl named ↦ elim (Result-cases block.0) [
          | inr (e, x) ↦ absurd (ground arith)
          | inl ((m, n, d), x) ↦
              (let found =
                  compare_columns-Found source target m n d start block.1 (clear-IsReady s k) refl
                    (ap (λ o. (o, block.1)) x) in
                let q : add_differences m n d block.1.metrics ≡ t.metrics = ground arith in
                let q' : (on_registry clear_work block.1).1.cache ≡ t.cache = ground arith in
                (
                  subst (λ k. (failed k ≡ false) ↔ Agrees source target s) q
                      (verdict_iff source target m n d start block.1 found),
                  subst (λ c. IsReadyCache u crypto secret group_id normalization allow_empty r c)
                      q' (clear-IsReady block.1 found.ready),
                ))
        ]
      ]

-- The comparison of two columns that cannot be aligned by key, when it ends without an error, from
-- a cache of the group that answers as the registry: the verdict is good exactly when it was good
-- before, every source value that is not NULL has a replacement in the registry, every target value
-- is a text or NULL, both columns have the same number of NULLs, and every digest stands as often
-- among those of the replacements as among those of the target values.
pub check_mapping_aggregate_iff :
    (u : Unicode) (crypto : Crypto) (secret : Bytes) (group_id normalization : Text)
    (allow_empty : Bool) (fetch_size : ℕ) (r : Registry) (source target : List Value)
    (s t : Comparison)
    → IsReady u crypto secret group_id normalization allow_empty r s
    → check_mapping_aggregate u crypto secret group_id normalization allow_empty fetch_size source
        target s
      ≡ (ok tt, t)
    → (failed t.metrics ≡ false)
      ↔ Agrees u crypto secret group_id normalization allow_empty fetch_size r source target s
check_mapping_aggregate_iff u crypto secret group_id normalization allow_empty fetch_size r source
      target s t k h =
    (check_mapping_aggregate-Found u crypto secret group_id normalization allow_empty fetch_size r
      source target s t k h).0

-- The cache stays one that answers as the registry.
pub check_mapping_aggregate-IsReady :
    (u : Unicode) (crypto : Crypto) (secret : Bytes) (group_id normalization : Text)
    (allow_empty : Bool) (fetch_size : ℕ) (r : Registry) (source target : List Value)
    (s t : Comparison)
    → IsReady u crypto secret group_id normalization allow_empty r s
    → check_mapping_aggregate u crypto secret group_id normalization allow_empty fetch_size source
        target s
      ≡ (ok tt, t)
    → IsReady u crypto secret group_id normalization allow_empty r t
check_mapping_aggregate-IsReady u crypto secret group_id normalization allow_empty fetch_size r
      source target s t k h =
    (check_mapping_aggregate-Found u crypto secret group_id normalization allow_empty fetch_size r
      source target s t k h).1
