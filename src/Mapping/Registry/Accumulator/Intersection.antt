-- ===== src/Mapping/Registry/Accumulator/Intersection.antt =====
-- `source_intersection_count`: which of the actual digests are source keys.
use db_sanitizer.Base.{
  ◌<◌, ◌≡◌, refl, sym, ap, ◌∙◌, Bool, true, false, not, ◌&&◌, List, [], ◌∷◌, all, count, ltb, ◌==◌,
  arith, inl, inr, Bool-cases,
}
use db_sanitizer.Base.Text.{Text, text_eq, text_eq_iff}
use db_sanitizer.Mapping.Tables.{HmacWork}
use db_sanitizer.Mapping.Registry.Accumulator.{actual}
use db_sanitizer.Mapping.Registry.Accumulator.Tally.{occurrences, tally, tally-absent, IsKeyed}
use db_sanitizer.Mapping.Registry.Accumulator.Multiset.{Represents}

module _ (is_source : Text → Bool) where
  abbrev pub collides : HmacWork → Bool
  collides w = ltb 0 w.actual_count && is_source w.value_hmac

  -- No row collides: then no digest with a count is a source key.
  free_of_count :
      (v : Text) (ws : List HmacWork)
      → count collides ws ≡ 0
      → 0 < tally actual v ws
      → is_source v ≡ false
  unfolding tally
  free_of_count v [] h k = absurd (omega (arith, k))
  free_of_count v (w ∷ ws) h k = elim (Bool-cases (text_eq w.value_hmac v)) [
    | inl same ↦ ap is_source (sym ((text_eq_iff w.value_hmac v).0 same)) ∙ (ground arith)
    | inr different ↦ free_of_count v ws (ground arith) (ground arith)
  ]

  count_of_free :
      (ws : List HmacWork)
      → IsKeyed ws
      → ((v : Text) → 0 < tally actual v ws → is_source v ≡ false)
      → count collides ws ≡ 0
  unfolding tally
  count_of_free [] k h = refl
  count_of_free (w ∷ ws) k h =
      let here = h w.value_hmac in
      let rest = count_of_free ws k.1 (λ v p.
        h v
          (ground (arith, text_eq_iff w.value_hmac v, tally-absent actual w.value_hmac ws k.0))) in
      ground (arith, here, rest, (text_eq_iff w.value_hmac w.value_hmac).1 refl)

  all_of_occurrences :
      (seen : List Text)
      → ((v : Text) → 0 < occurrences v seen → is_source v ≡ false)
      → all (λ v. not (is_source v)) seen ≡ true
  all_of_occurrences [] h = refl
  all_of_occurrences (x ∷ seen) h =
      let here = h x in
      let rest = all_of_occurrences seen (λ v p. h v (ground arith)) in
      ground (arith, here, rest, (text_eq_iff x x).1 refl)

  occurrences_of_all :
      (seen : List Text)
      → all (λ v. not (is_source v)) seen ≡ true
      → (v : Text) → 0 < occurrences v seen
      → is_source v ≡ false
  occurrences_of_all [] h v k = absurd (omega (arith, k))
  occurrences_of_all (x ∷ seen) h v k = elim (Bool-cases (text_eq v x)) [
    | inl same ↦ ap is_source ((text_eq_iff v x).0 same) ∙ (ground arith)
    | inr different ↦ occurrences_of_all seen (ground arith) v (ground arith)
  ]

  -- In a table that stands for a list of actual digests, no row collides exactly when none of them
  -- is a source key.
  pub count_zero_iff :
      (wanted seen : List Text) (ws : List HmacWork)
      → Represents wanted seen ws
      → (count collides ws == 0) ≡ all (λ v. not (is_source v)) seen
  count_zero_iff wanted seen ws r =
      let there = λ (h : count collides ws ≡ 0).
        all_of_occurrences seen (λ v p. free_of_count v ws h (omega (arith, r.actual_at v, p))) in
      let back = λ (h : all (λ v. not (is_source v)) seen ≡ true).
        count_of_free ws r.keyed
          (λ v p. occurrences_of_all seen h v (omega (arith, r.actual_at v, p))) in
      elim (Bool-cases (count collides ws == 0)) [
        | inl zero_count ↦ ground (arith, there (ground arith))
        | inr some_count ↦ elim (Bool-cases (all (λ v. not (is_source v)) seen)) [
          | inl free ↦ absurd (ground (arith, back free))
          | inr hit ↦ ground arith
        ]
      ]
