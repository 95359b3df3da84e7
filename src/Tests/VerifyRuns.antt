-- ===== src/Tests/VerifyRuns.antt =====
-- Runs of the verifier.
use db_sanitizer.Base.{
  ℕ, zero, ◌≡◌, ◌↔◌, ◌&&◌, ◌||◌, not, any, all, refl, Bool, true, false, Option, none, some, List,
  [], ◌∷◌, ◌++◌, arith, sum, map,
}
use db_sanitizer.Base.Text.{text_eq, text_eq_instance, nonempty, Text, codes}
use db_sanitizer.Errors.{Result, ok}
use db_sanitizer.Base.Dict as Dicts
use db_sanitizer.Mapping.Normalization.{strip, normalize, Value, str, null}
use db_sanitizer.Mapping.Registry.{validate_keys, is_hex, is_digest, Registry, validate_key, lookup}
use db_sanitizer.Mapping.Registry.Accumulator.{
  upsert_all, upsert, add, with_accumulator, multiset_difference_count,
}
use db_sanitizer.Mapping.Registry.Accumulator.Scope.{
  concat, compare_multisets, with_accumulator_difference,
}
use db_sanitizer.Exec.{transaction, for_each}
use db_sanitizer.Greenmask.Mapper.{attribute}
use db_sanitizer.Verify.Agreement.{transform_verified}
use db_sanitizer.Tests.MapperRuns.{mapper, fields, masked, group, mapper-IsSound, transformed}
use db_sanitizer.Mapping.Registry.Accumulator.Tally.{occurrences}
use db_sanitizer.Verify.LookupCache.{ReplacementLookupCache, cached_lookup}
use db_sanitizer.Verify.LookupCache.Answers.{IsFaithful, Follows, cached_lookup_answers}
use db_sanitizer.Verify.Checks.{is_pass, ColumnStats, check_no_single_placeholder}
use db_sanitizer.Verify.Checks.Verdicts.{keeps_variety, check_no_single_placeholder_iff}
use db_sanitizer.Verify.Mappings.{
  key_eq, expected_replacement, digest_for_check, compare_rows, compare_mapping_values,
  MappingMetrics, Comparison, failed, check_mapping_by_primary_key, Row,
}
use db_sanitizer.Verify.Mappings.Rows.{is_masked, is_masked_column}
use db_sanitizer.Verify.Mappings.Column.{check_mapping_by_primary_key_iff}
use db_sanitizer.Verify.Aggregate.{
  check_mapping_aggregate, compare_columns, expect_all, expect, push, see_all,
}
use db_sanitizer.Verify.Aggregate.Verdict.{Agrees, check_mapping_aggregate_iff}
use db_sanitizer.Tests.Samples.{
  unicode, crypto, secret, people, hex, s1, s2, name_column, mapped_registry,
}
use db_sanitizer.Mapping.Tables.{select_key}
use db_sanitizer.Mapping.HmacKey.{encode, digest}

abbrev cache : ReplacementLookupCache
cache = record {
  registry = mapped_registry;
  group_id = people;
  limit = 2;
  values = (hex (codes "a"), some (codes "Ada")) ∷ [];
}

cache-IsFaithful : IsFaithful cache
unfolding lookup validate_key select_key text_eq
cache-IsFaithful = ((refl, tt), omega arith, omega arith)

cached_lookup_answers_example :
    ((cached_lookup (hex (codes "a")) cache).0
      ≡ (lookup people (hex (codes "a")) mapped_registry).0)
    × Follows cache (cached_lookup (hex (codes "a")) cache).1
cached_lookup_answers_example = cached_lookup_answers (hex (codes "a")) cache cache-IsFaithful

abbrev no_metrics : MappingMetrics
no_metrics = record {
  columns_checked = 1;
  primary_key_columns = 1;
  aggregate_columns = 0;
  unavailable_columns = 0;
  rows_checked = 0;
  primary_key_mismatches = 0;
  null_mismatches = 0;
  missing_mappings = 0;
  mapping_mismatches = 0;
  unchanged_values = 0;
  invalid_source_values = 0;
  invalid_target_values = 0;
}

abbrev start : Comparison
start = record { metrics = no_metrics; cache = cache }

abbrev source_rows : List Row
source_rows = ((str (codes "1") ∷ []), str (codes "Max")) ∷ ((str (codes "2") ∷ []), null) ∷ []

abbrev target_rows : List Row
target_rows = ((str (codes "1") ∷ []), str (codes "Ada")) ∷ ((str (codes "2") ∷ []), null) ∷ []

abbrev end : Comparison
end =
    (check_mapping_by_primary_key unicode crypto secret people (codes "human_text") false
      source_rows target_rows start).1

checked :
    check_mapping_by_primary_key unicode crypto secret people
      (codes "human_text")
      false
      source_rows
      target_rows
      start
    ≡ (ok tt, end)
unfolding check_mapping_by_primary_key compare_rows compare_mapping_values key_eq
    expected_replacement cached_lookup text_eq digest_for_check db_sanitizer.Base.Dict.lookup
    normalize digest strip encode
checked = refl

check_mapping_by_primary_key_iff_example : failed end.metrics ≡ (
    failed no_metrics
    || not (
        is_masked_column unicode crypto secret people
          (codes "human_text")
          false
          mapped_registry
          source_rows
          target_rows))
check_mapping_by_primary_key_iff_example =
    check_mapping_by_primary_key_iff unicode crypto secret people (codes "human_text") false
      mapped_registry source_rows target_rows start end (cache-IsFaithful, refl, refl) checked

-- The digests of a column that was masked in another order.
abbrev wanted : List Text
wanted = s1 ∷ s2 ∷ s1 ∷ []

abbrev scope : Result ℕ × Registry
scope =
    with_accumulator people
      (compare_multisets people (wanted ∷ []) ((s2 ∷ []) ∷ (s1 ∷ s1 ∷ []) ∷ [])) mapped_registry

compared : scope ≡ (ok 0, mapped_registry)
unfolding with_accumulator add for_each multiset_difference_count upsert_all validate_keys
    transaction upsert validate_key text_eq is_digest is_hex
compared = refl

with_accumulator_difference_example : (zero ≡ zero) ↔ (
    (v : Text)
    → occurrences v (concat (wanted ∷ []))
      ≡ occurrences v (concat ((s2 ∷ []) ∷ (s1 ∷ s1 ∷ []) ∷ [])))
with_accumulator_difference_example =
    with_accumulator_difference people (wanted ∷ []) ((s2 ∷ []) ∷ (s1 ∷ s1 ∷ []) ∷ [])
      mapped_registry mapped_registry 0 compared

abbrev source_values : List Value
source_values = str (codes "Max") ∷ null ∷ str (codes "Max") ∷ []

-- The NULL stands elsewhere.
abbrev target_values : List Value
target_values = str (codes "Ada") ∷ str (codes "Ada") ∷ null ∷ []

abbrev aggregated : Comparison
aggregated =
    (check_mapping_aggregate unicode crypto secret people (codes "human_text") false 1 source_values
      target_values start).1

aggregate_checked :
    check_mapping_aggregate unicode crypto secret people
      (codes "human_text")
      false
      1
      source_values
      target_values
      start
    ≡ (ok tt, aggregated)
unfolding check_mapping_aggregate compare_columns expect_all expect push see_all add
    multiset_difference_count upsert_all validate_keys transaction upsert validate_key text_eq
    is_digest is_hex expected_replacement cached_lookup digest_for_check Dicts.lookup normalize
    digest strip encode Dicts.erase
aggregate_checked = refl

check_mapping_aggregate_iff_example :
    (failed aggregated.metrics ≡ false)
    ↔ Agrees unicode crypto secret people
        (codes "human_text")
        false
        1
        mapped_registry
        source_values
        target_values
        start
check_mapping_aggregate_iff_example =
    check_mapping_aggregate_iff unicode crypto secret people (codes "human_text") false 1
      mapped_registry source_values target_values start aggregated (cache-IsFaithful, refl, refl)
      aggregate_checked

-- The verdict is good.
aggregate_agrees : failed aggregated.metrics ≡ false
unfolding failed check_mapping_aggregate compare_columns expect_all expect push see_all add
    multiset_difference_count upsert_all validate_keys transaction upsert validate_key text_eq
    is_digest is_hex expected_replacement cached_lookup digest_for_check Dicts.lookup normalize
    digest strip encode Dicts.erase
aggregate_agrees = refl

transform_verified_example :
    (x : Text) × (Dicts.lookup (codes "name") masked ≡ some (attribute false (str x)))
    × (is_masked unicode crypto secret people
          (codes "human_text")
          false
          mapped_registry
          (str (codes "Max"))
          (str x)
        ≡ (nonempty x && not (text_eq (codes "Max") x)))
unfolding text_eq Dicts.lookup
transform_verified_example =
    transform_verified unicode crypto secret mapper fields masked (codes "name") people
      (codes "Max") group mapper-IsSound refl transformed refl refl refl

abbrev stats : List ColumnStats
stats =
    record {
      group_id = people;
      ref = name_column;
      source_nulls = 1;
      target_nulls = 1;
      source_distinct = 5;
      target_distinct = 1;
      available = true;
    }
    ∷ []

check_no_single_placeholder_iff_example :
    is_pass (check_no_single_placeholder stats) ≡ all keeps_variety stats
check_no_single_placeholder_iff_example = check_no_single_placeholder_iff stats
