-- ===== src/Verify/Aggregate/Totals.antt =====
-- The two loops of `_check_mapping_aggregate`, from their first value to their last.
use db_sanitizer.Base.{
  ℕ, suc, ◌+◌, ◌≡◌, refl, Bool, true, false, not, ◌&&◌, ◌||◌, List, [], ◌∷◌, ◌++◌, arith, inl, inr,
  sym, ap, ◌∙◌,
}
use mathlib.Core.Path.{subst}
use mathlib.Core.List.{append-nil, append_assoc}
use db_sanitizer.Base.Text.{Text}
use db_sanitizer.Errors.{Result, ok, err, Result-cases}
use db_sanitizer.Mapping.Normalization.{Unicode, Value, null, str, other}
use db_sanitizer.Mapping.HmacKey.{Bytes, Crypto, digest}
use db_sanitizer.Mapping.Registry.{Registry}
use db_sanitizer.Mapping.Registry.Accumulator.{Column, expected, add}
use db_sanitizer.Verify.Mappings.{Comparison, failed}
use db_sanitizer.Verify.Mappings.Rows.{failed-row_checked}
use db_sanitizer.Verify.Aggregate.{on_registry, checked, expect, expect_all}
use db_sanitizer.Verify.Aggregate.Expected.{
  Holds, add-Holds, Ready, add-Ready, added, digests_of, is_mapped, expect-Moved,
}

-- The number of NULLs.
abbrev pub nulls_of : List Value → ℕ
nulls_of [] = 0
nulls_of (null ∷ values) = suc (nulls_of values)
nulls_of (_ ∷ values) = nulls_of values

-- Every value that is not NULL is a text.
abbrev pub all_text : List Value → Bool
all_text [] = true
all_text (other n ∷ values) = false
all_text (_ ∷ values) = all_text values

module _ (u : Unicode) (crypto : Crypto) (secret : Bytes) (group_id normalization : Text)
    (allow_empty : Bool) (fetch_size : ℕ) (r : Registry) where
  -- Every value that is not NULL has a replacement.
  abbrev pub all_mapped : List Value → Bool
  all_mapped [] = true
  all_mapped (null ∷ values) = all_mapped values
  all_mapped (v ∷ values) =
      is_mapped u crypto secret group_id normalization allow_empty fetch_size r v
      && all_mapped values

  -- The digests of the replacements that the source values have.
  abbrev pub wanted_of : List Value → List Text
  wanted_of [] = []
  wanted_of (null ∷ values) = wanted_of values
  wanted_of (v ∷ values) =
      digests_of u crypto secret group_id normalization allow_empty fetch_size r v
      ++ wanted_of values

  -- The digests of the target values.
  abbrev pub seen_of : List Value → List Text
  seen_of [] = []
  seen_of (str x ∷ values) = elim (digest crypto secret group_id x) [
    | err e ↦ seen_of values
    | ok d ↦ d ∷ seen_of values
  ]
  seen_of (_ ∷ values) = seen_of values

  -- How a loop ends: its digests are in the table, and its NULLs counted.
  pub record Total (column : Column) (values others : List Text) (n m : ℕ) (t : Comparison)
      : Type 0 where
    pub holds : Holds column values others t.cache.registry.work
    pub counted : n ≡ m
    pub ready : Ready u crypto secret group_id normalization allow_empty fetch_size r t

  pub end-Total :
      (column : Column) (values others batch : List Text) (n m : ℕ) (s t : Comparison)
      → Ready u crypto secret group_id normalization allow_empty fetch_size r s
      → Holds column values others s.cache.registry.work
      → on_registry (add group_id column batch) s ≡ (ok tt, t)
      → n ≡ m
      → Total column (values ++ batch) others n m t × (t.metrics ≡ s.metrics)
  end-Total column values others batch n m s t k w h c =
      let finish = (add group_id column batch s.cache.registry).1 in
      let q : added u crypto secret group_id normalization allow_empty fetch_size r column batch s
          ≡ t =
        ap (λ o. o.1) h in
      (
        record {
          holds =
              subst (λ x. Holds column (values ++ batch) others x.cache.registry.work) q
                (add-Holds group_id column batch values others s.cache.registry finish
                  (ap (λ o. (o, finish)) (ap (λ o. o.0) h)) w);
          counted = c;
          ready = subst (Ready u crypto secret group_id normalization allow_empty fetch_size r) q (
              add-Ready u crypto secret group_id normalization allow_empty fetch_size r column batch
                s k);
        },
        ap (λ x. x.metrics) (sym q),
      )

  -- The last batch.
  pub last-Total :
      (column : Column) (values others batch : List Text) (nulls n : ℕ) (s t : Comparison)
      → Ready u crypto secret group_id normalization allow_empty fetch_size r s
      → Holds column values others s.cache.registry.work
      → ◌≡◌ {A = Result ℕ × Comparison}
          (let (result, s') = on_registry (add group_id column batch) s in
            elim result [ err e ↦ (err e, s') | ok _ ↦ (ok nulls, s') ])
          (ok n, t)
      → Total column (values ++ (batch ++ [])) others n (nulls + 0) t
        × (failed t.metrics ≡ (failed s.metrics || false))
  last-Total column values others batch nulls n s t k w h =
      elim (Result-cases (add group_id column batch s.cache.registry).0) [
        | inr (e, x) ↦ absurd (ground arith)
        | inl (u', x) ↦
            (let (total, same) =
                end-Total column values others batch n (nulls + 0) s t k w (ground arith)
                  (ground arith) in
              (
                subst (λ l. Total column (values ++ l) others n (nulls + 0) t)
                    (sym (append-nil batch)) total,
                ground (arith, ap failed same),
              ))
      ]

  -- The rest of a loop, from any state.
  abbrev pub Continues : List Value → Type 0
  Continues source =
      (wanted seen batch : List Text) (nulls n : ℕ) (s t : Comparison)
      → Ready u crypto secret group_id normalization allow_empty fetch_size r s
      → Holds expected wanted seen s.cache.registry.work
      → expect_all u crypto secret group_id normalization allow_empty fetch_size nulls batch source
          s
        ≡ (ok n, t)
      → Total expected (wanted ++ (batch ++ wanted_of source)) seen n (nulls + nulls_of source) t
        × (failed t.metrics ≡ (failed s.metrics || not (all_mapped source)))

  pub moved_on :
      (added_ones batch' values batch ds more : List Text)
      → added_ones ++ batch' ≡ values ++ (batch ++ ds)
      → added_ones ++ (batch' ++ more) ≡ values ++ (batch ++ (ds ++ more))
  moved_on added_ones batch' values batch ds more h =
      sym (append_assoc added_ones batch' more)
      ∙ ap (λ l. l ++ more) h
      ∙ append_assoc values (batch ++ ds) more
      ∙ ap (λ l. values ++ l) (append_assoc batch ds more)

  expect_one-Total :
      (v : Value) (source : List Value) (wanted seen batch : List Text) (nulls n m : ℕ)
      (s t : Comparison)
      → Continues source
      → Ready u crypto secret group_id normalization allow_empty fetch_size r s
      → Holds expected wanted seen s.cache.registry.work
      → (let (left, s') =
            expect u crypto secret group_id normalization allow_empty fetch_size batch v s in
          elim left [
            | err e ↦ (err e, s')
            | ok batch' ↦
                expect_all u crypto secret group_id normalization allow_empty fetch_size nulls
                  batch' source s'
          ])
        ≡ (ok n, t)
      → nulls + nulls_of source ≡ m
      → Total expected
          (wanted
            ++ (batch
                ++ (digests_of u crypto secret group_id normalization allow_empty fetch_size r v
                    ++ wanted_of source)))
          seen
          n
          m
          t
        × (failed t.metrics ≡ (
            failed s.metrics
            || not (
                is_mapped u crypto secret group_id normalization allow_empty fetch_size r v
                && all_mapped source)))
  unfolding Holds
  expect_one-Total v source wanted seen batch nulls n m s t later k w h c =
      let result = expect u crypto secret group_id normalization allow_empty fetch_size batch v s in
      elim (Result-cases result.0) [
        | inr (e, x) ↦ absurd (ground arith)
        | inl (batch', x) ↦
            (let (moved, verdict) =
                expect-Moved u crypto secret group_id normalization allow_empty fetch_size r wanted
                  seen batch batch' v s result.1 k w (ap (λ o. (o, result.1)) x) in
              let (total, verdict') =
                later moved.added_ones seen batch' nulls n result.1 t moved.ready moved.represents
                  (ground arith) in
              (
                record {
                  holds =
                      subst (λ l. Holds expected l seen t.cache.registry.work)
                        (moved_on moved.added_ones batch' wanted batch
                          (digests_of u crypto secret group_id normalization allow_empty fetch_size
                            r v)
                          (wanted_of source) moved.in_order)
                        total.holds;
                  counted = total.counted ∙ c;
                  ready = total.ready;
                },
                ground (arith, verdict, verdict'),
              ))
      ]

  pub expect_all-Total : (source : List Value) → Continues source
  unfolding expect_all
  expect_all-Total [] wanted seen batch nulls n s t k w h =
      last-Total expected wanted seen batch nulls n s t k w h
  expect_all-Total (null ∷ source) wanted seen batch nulls n s t k w h =
      let (total, verdict) =
        expect_all-Total source wanted seen batch (nulls + 1) n (checked s) t k w h in
      (
        record {
          holds = total.holds;
          counted = ground (arith, total.counted);
          ready = total.ready;
        },
        ground (arith, verdict, failed-row_checked s.metrics),
      )
  expect_all-Total (str y ∷ source) wanted seen batch nulls n s t k w h =
      expect_one-Total (str y) source wanted seen batch nulls n (nulls + nulls_of source) s t
        (expect_all-Total source) k w h refl
  expect_all-Total (other y ∷ source) wanted seen batch nulls n s t k w h =
      expect_one-Total (other y) source wanted seen batch nulls n (nulls + nulls_of source) s t
        (expect_all-Total source) k w h refl
