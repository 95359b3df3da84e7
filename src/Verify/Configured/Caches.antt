-- ===== src/Verify/Configured/Caches.antt =====
-- The caches of `check_configured_mappings`: each answers as the registry does for its group.
use db_sanitizer.Base.{
  ◌≡◌, ◌↔◌, refl, sym, ap, ◌∙◌, false, some, [], ◌∷◌, All, arith, inl, inr, Bool-cases,
  Option-cases,
}
use mathlib.Core.Path.{subst}
use db_sanitizer.Base.Dict.{Dict, lookup, insert}
use db_sanitizer.Base.Text.{Text, text_eq, text_eq_iff, text_eq_instance}
use db_sanitizer.Errors.{ok}
use db_sanitizer.Exec.{Exec}
use db_sanitizer.Mapping.Registry.{Registry}
use db_sanitizer.Verify.LookupCache.{ReplacementLookupCache, new_cache}
use db_sanitizer.Verify.LookupCache.Answers.{IsFaithful}
use db_sanitizer.Verify.Aggregate.Expected.{AllAnswered-mappings}
use db_sanitizer.Verify.Mappings.{Comparison, failed}
use db_sanitizer.Verify.Configured.{Checking, cache_for, with_cache}

module _ (r : Registry) where
  -- The cache is one of this group, over the mappings of the registry.
  abbrev pub Fits : Text → ReplacementLookupCache → Type 0
  Fits g c = IsFaithful c × (c.registry.mappings ≡ r.mappings) × (c.group_id ≡ g)

  abbrev pub AllFit : Dict Text ReplacementLookupCache → Type 0
  AllFit caches = All (λ entry. Fits entry.0 entry.1) caches

  abbrev pub IsChecking : Checking → Type 0
  IsChecking s = (s.registry.mappings ≡ r.mappings) × AllFit s.lookup_caches

  lookup-Fits :
      (g : Text) (c : ReplacementLookupCache) (caches : Dict Text ReplacementLookupCache)
      → AllFit caches
      → lookup g caches ≡ some c
      → Fits g c
  unfolding lookup
  lookup-Fits g c [] h q = cc
  lookup-Fits g c ((j, d) ∷ caches) h q = elim (Bool-cases (text_eq j g)) [
    | inl same ↦
        (let p : d ≡ c = ground arith in
          subst (λ k. Fits k c) ((text_eq_iff j g).0 same) (subst (Fits j) p h.0))
    | inr different ↦ lookup-Fits g c caches h.1 (ground arith)
  ]

  insert-AllFit :
      (g : Text) (c : ReplacementLookupCache) (caches : Dict Text ReplacementLookupCache)
      → Fits g c
      → AllFit caches
      → AllFit (insert g c caches)
  unfolding insert
  insert-AllFit g c [] k h = (k, tt)
  insert-AllFit g c ((j, d) ∷ caches) k h = elim (Bool-cases (text_eq j g)) [
    | inl same ↦ rw same (subst (λ i. Fits i c) (sym ((text_eq_iff j g).0 same)) k, h.1)
    | inr different ↦ rw different (h.0, insert-AllFit g c caches k h.1)
  ]

  -- A cache over another registry with the same mappings.
  moved-Fits :
      (g : Text) (c : ReplacementLookupCache) (t : Registry)
      → t.mappings ≡ r.mappings
      → Fits g c
      → Fits g (record c { registry = t })
  moved-Fits g c t m k =
      let faithful : IsFaithful (record c { registry = t }) =
        (AllAnswered-mappings c.registry t c.group_id c.values (m ∙ sym k.1) k.0.0, k.0.1, k.0.2) in
      (faithful, m, k.2)

  new_cache-Fits : (g : Text) (t : Registry) → t.mappings ≡ r.mappings → Fits g (new_cache t g)
  new_cache-Fits g t m = ((tt, omega arith, omega arith), m, refl)

  cache_for-Fits : (g : Text) (s : Checking) → IsChecking s → Fits g (cache_for g s)
  unfolding cache_for
  cache_for-Fits g s k = elim (Option-cases (lookup g s.lookup_caches)) [
    | inl fresh ↦
        (let q : new_cache s.registry g ≡ cache_for g s = ground arith in
          subst (Fits g) q (new_cache-Fits g s.registry k.0))
    | inr (c, stored) ↦
        (let q : record c { registry = s.registry } ≡ cache_for g s = ground arith in
          subst (Fits g) q
            (moved-Fits g c s.registry k.0 (lookup-Fits g c s.lookup_caches k.1 stored)))
  ]

  -- What a comparison of a group says: the verdict is good if it was and `P` holds.
  abbrev pub Decides : Text → Type 0 → Exec Comparison (Unit {0}) → Type 0
  Decides g P compare =
      (s t : Comparison)
      → Fits g s.cache
      → compare s ≡ (ok tt, t)
      → ((failed t.metrics ≡ false) ↔ ((failed s.metrics ≡ false) × P)) × Fits g t.cache

  pub with_cache-Decides :
      (g : Text) (P : Type 0) (compare : Exec Comparison (Unit {0}))
      → Decides g P compare
      → (s t : Checking) → IsChecking s
      → with_cache g compare s ≡ (ok tt, t)
      → ((failed t.metrics ≡ false) ↔ ((failed s.metrics ≡ false) × P)) × IsChecking t
  unfolding with_cache
  with_cache-Decides g P compare decides s t k h =
      let s' : Comparison = record { metrics = s.metrics; cache = cache_for g s } in
      let t' = (compare s').1 in
      let ended : compare s' ≡ (ok tt, t') = ap (λ o. (o, t')) (ap (λ o. o.0) h) in
      let (verdict, fits) = decides s' t' (cache_for-Fits g s k) ended in
      let after : Checking = record {
        metrics = t'.metrics;
        lookup_caches = insert g t'.cache s.lookup_caches;
        registry = t'.cache.registry;
      } in
      let q : after ≡ t = ap (λ o. o.1) h in
      subst (λ x. ((failed x.metrics ≡ false) ↔ ((failed s.metrics ≡ false) × P)) × IsChecking x) q
        (verdict, (fits.1, insert-AllFit g t'.cache s.lookup_caches fits k.1))
