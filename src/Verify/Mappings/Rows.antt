-- ===== src/Verify/Mappings/Rows.antt =====
-- What the verifier expects of a target value, and how the counts record that it is not so.
use db_sanitizer.Base.{
  ◌≡◌, refl, sym, Bool, true, false, not, ◌&&◌, Option, none, some, List, [], ◌∷◌, arith, inl, inr,
  ap, ◌∙◌,
}
use mathlib.Core.Path.{subst}
use db_sanitizer.Base.Text.{Text, text_eq}
use db_sanitizer.Errors.{Result, ok, err, Result-cases}
use db_sanitizer.Mapping.Normalization.{Unicode, Value, null, str}
use db_sanitizer.Mapping.HmacKey.{Bytes, Crypto}
use db_sanitizer.Mapping.Registry.{Registry, lookup}
use db_sanitizer.Verify.LookupCache.{ReplacementLookupCache, cached_lookup}
use db_sanitizer.Verify.LookupCache.Answers.{IsFaithful, cached_lookup_answers}
use db_sanitizer.Verify.Mappings.{
  MappingMetrics, failed, Comparison, null_mismatch, missing_mapping, mapping_mismatch,
  unchanged_value, invalid_source, invalid_target, key_mismatch, row_checked, value_eq, key_eq, Row,
  digest_of, expected_replacement,
}

-- What each count does to the verdict.
pub failed-null_mismatch : (m : MappingMetrics) → failed (null_mismatch m) ≡ true
unfolding failed
failed-null_mismatch m = ground arith

failed-missing_mapping : (m : MappingMetrics) → failed (missing_mapping m) ≡ true
unfolding failed
failed-missing_mapping m = ground arith

pub failed-mapping_mismatch : (m : MappingMetrics) → failed (mapping_mismatch m) ≡ true
unfolding failed
failed-mapping_mismatch m = ground arith

pub failed-unchanged_value : (m : MappingMetrics) → failed (unchanged_value m) ≡ true
unfolding failed
failed-unchanged_value m = ground arith

failed-invalid_source : (m : MappingMetrics) → failed (invalid_source m) ≡ true
unfolding failed
failed-invalid_source m = ground arith

pub failed-invalid_target : (m : MappingMetrics) → failed (invalid_target m) ≡ true
unfolding failed
failed-invalid_target m = ground arith

pub failed-key_mismatch : (m : MappingMetrics) → failed (key_mismatch m) ≡ true
unfolding failed
failed-key_mismatch m = ground arith

pub failed-row_checked : (m : MappingMetrics) → failed (row_checked m) ≡ failed m
unfolding failed
failed-row_checked m = refl

module _ (u : Unicode) (crypto : Crypto) (secret : Bytes) (group_id normalization : Text)
    (allow_empty : Bool) (r : Registry) where
  abbrev pub digested : Value → Result (Option Text)
  digested value = digest_of u crypto secret group_id normalization allow_empty value

  -- The replacement of a source value, if its digest has one that is not empty.
  abbrev pub mapped_text : Value → Option Text
  mapped_text value = elim (digested value) [
    | err e ↦ none
    | ok none ↦ none
    | ok (some source_hmac) ↦ elim (lookup group_id source_hmac r).0 [
      | err e ↦ none
      | ok none ↦ none
      | ok (some []) ↦ none
      | ok (some (c ∷ x)) ↦ some (c ∷ x)
    ]
  ]

  -- The target holds the replacement, and that is not the source value itself.
  abbrev pub is_image : Value → Value → Text → Bool
  is_image source_value (str target) x =
      text_eq target x && not (value_eq source_value (str target))
  is_image source_value _ x = false

  abbrev pub is_masked : Value → Value → Bool
  is_masked null null = true
  is_masked null target_value = false
  is_masked source_value target_value = elim (mapped_text source_value) [
    | none ↦ false
    | some x ↦ is_image source_value target_value x
  ]

  -- The target rows are, one for one, the masked source rows, under the same keys.
  abbrev pub is_masked_column : List Row → List Row → Bool
  is_masked_column [] [] = true
  is_masked_column ((k, v) ∷ source) ((l, w) ∷ target) =
      key_eq k l && is_masked v w && is_masked_column source target
  is_masked_column _ _ = false

  -- A cache of this group over a registry with these mappings.
  abbrev pub IsReadyCache : ReplacementLookupCache → Type 0
  IsReadyCache c = IsFaithful c × (c.registry.mappings ≡ r.mappings) × (c.group_id ≡ group_id)

  abbrev pub IsReady : Comparison → Type 0
  IsReady s = IsReadyCache s.cache

  pub lookup-mappings :
      (g d : Text) (t : Registry) → t.mappings ≡ r.mappings → (lookup g d t).0 ≡ (lookup g d r).0
  unfolding lookup
  lookup-mappings g d t h = ground arith

  abbrev pub expected_of : Value → Comparison → Result (Option Text) × Comparison
  expected_of value s =
      expected_replacement u crypto secret group_id normalization allow_empty value s

  -- The cached lookup, from the registry.
  cached-ready :
      (d : Text) (s : Comparison)
      → IsReady s
      → (cached_lookup d s.cache).0 ≡ (lookup group_id d r).0
  cached-ready d s ready =
      (cached_lookup_answers d s.cache ready.0).0
      ∙ ap (λ g. (lookup g d s.cache.registry).0) ready.2
      ∙ lookup-mappings group_id d s.cache.registry ready.1

  pub expected-cache :
      (value : Value) (s : Comparison) → IsReady s → IsReady (expected_of value s).1
  unfolding expected_replacement
  expected-cache value s ready = elim (Result-cases (digested value)) [
    | inr (e, h) ↦
        (let q : s.cache ≡ (expected_of value s).1.cache = ground arith in
          subst IsReadyCache q ready)
    | inl (none, h) ↦
        (let q : s.cache ≡ (expected_of value s).1.cache = ground arith in
          subst IsReadyCache q ready)
    | inl (some d, h) ↦
        (let follows = (cached_lookup_answers d s.cache ready.0).1 in
          let q : (cached_lookup d s.cache).1 ≡ (expected_of value s).1.cache = ground arith in
          subst IsReadyCache q
            (follows.0, ap (λ t. t.mappings) follows.1 ∙ ready.1, follows.2 ∙ ready.2))
  ]

  pub expected-registry :
      (value : Value) (s : Comparison)
      → IsReady s
      → s.cache.registry ≡ (expected_of value s).1.cache.registry
  unfolding expected_replacement
  expected-registry value s ready = elim (Result-cases (digested value)) [
    | inr (e, h) ↦ ground arith
    | inl (none, h) ↦ ground arith
    | inl (some d, h) ↦
        (let follows = (cached_lookup_answers d s.cache ready.0).1 in
          let q : (cached_lookup d s.cache).1 ≡ (expected_of value s).1.cache = ground arith in
          sym follows.1 ∙ ap (λ c. c.registry) q)
  ]

  pub expected-none :
      (value : Value) (s : Comparison)
      → IsReady s
      → (expected_of value s).0 ≡ ok none
      → (mapped_text value ≡ none) × (failed (expected_of value s).1.metrics ≡ true)
  unfolding expected_replacement
  expected-none value s ready h = elim (Result-cases (digested value)) [
    | inr (e, k) ↦ cc
    | inl (none, k) ↦ (ground arith, ground (arith, failed-invalid_source s.metrics))
    | inl (some d, k) ↦
        (let same = cached-ready d s ready in
          (ground (arith, same), ground (arith, failed-missing_mapping s.metrics)))
  ]

  pub expected-some :
      (value : Value) (s : Comparison) (x : Text)
      → IsReady s
      → (expected_of value s).0 ≡ ok (some x)
      → (mapped_text value ≡ some x) × ((expected_of value s).1.metrics ≡ s.metrics)
  unfolding expected_replacement
  expected-some value s x ready h = elim (Result-cases (digested value)) [
    | inr (e, k) ↦ cc
    | inl (none, k) ↦ cc
    | inl (some d, k) ↦
        (let same = cached-ready d s ready in (ground (arith, same), ground (arith, same)))
  ]
