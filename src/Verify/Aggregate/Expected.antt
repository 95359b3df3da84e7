-- ===== src/Verify/Aggregate/Expected.antt =====
-- The source side of `_check_mapping_aggregate`: the digests that it adds, and its counts.
use db_sanitizer.Base.{
  ℕ, ◌≡◌, Bool, not, ◌||◌, Option, none, some, List, [], ◌∷◌, ◌++◌, length, leb, is_some, arith,
  Bool-cases, inl, inr, sym, ap, ◌∙◌,
}
use mathlib.Core.Path.{subst}
use mathlib.Core.List.{append-nil}
use db_sanitizer.Base.Text.{Text}
use db_sanitizer.Errors.{ok, err, Result-cases}
use db_sanitizer.Mapping.Normalization.{Unicode, Value}
use db_sanitizer.Mapping.HmacKey.{Bytes, Crypto, digest}
use db_sanitizer.Mapping.Tables.{HmacWork}
use db_sanitizer.Mapping.Registry.{Registry, lookup}
use db_sanitizer.Mapping.Registry.History.Laws.{add-mappings}
use db_sanitizer.Mapping.Registry.Accumulator.{Column, expected, actual, add}
use db_sanitizer.Mapping.Registry.Accumulator.Multiset.{Represents}
use db_sanitizer.Mapping.Registry.Accumulator.Scope.{add-Represents}
use db_sanitizer.Verify.LookupCache.{ReplacementLookupCache}
use db_sanitizer.Verify.LookupCache.Answers.{AllAnswered, IsFaithful}
use db_sanitizer.Verify.Mappings.{Comparison, failed}
use db_sanitizer.Verify.Mappings.Rows.{
  failed-row_checked, mapped_text, IsReady, expected_of, expected-cache, expected-registry,
  expected-none, expected-some,
}
use db_sanitizer.Verify.Aggregate.{on_registry, checked, push, expect}

-- Answers depend on the table of mappings alone.
pub AllAnswered-mappings :
    (r t : Registry) (g : Text) (values : List (Text × Option Text))
    → t.mappings ≡ r.mappings
    → AllAnswered r g values
    → AllAnswered t g values
unfolding lookup
AllAnswered-mappings r t g [] m h = tt
AllAnswered-mappings r t g ((k, v) ∷ values) m h =
    (ground (arith, h.0), AllAnswered-mappings r t g values m h.1)

pub add-IsFaithful :
    (g : Text) (column : Column) (batch : List Text) (c : ReplacementLookupCache)
    → IsFaithful c
    → IsFaithful (record c { registry = (add g column batch c.registry).1 })
add-IsFaithful g column batch c f = (
  AllAnswered-mappings c.registry (add g column batch c.registry).1 c.group_id c.values
      (add-mappings g column batch c.registry) f.0,
  f.1,
  f.2,
)

-- The table stands for the digests of one column and those of the other.
unfoldable pub Holds : Column → List Text → List Text → List HmacWork → Type 0
Holds expected values others ws = Represents values others ws
Holds actual values others ws = Represents others values ws

pub add-Holds :
    (g : Text) (c : Column) (batch values others : List Text) (r t : Registry)
    → add g c batch r ≡ (ok tt, t)
    → Holds c values others r.work
    → Holds c (values ++ batch) others t.work
unfolding Holds
add-Holds g expected batch values others r t = add-Represents g expected batch values others r t
add-Holds g actual batch values others r t = add-Represents g actual batch others values r t

module _ (u : Unicode) (crypto : Crypto) (secret : Bytes) (group_id normalization : Text)
    (allow_empty : Bool) (fetch_size : ℕ) (r : Registry) where
  abbrev pub Ready : Comparison → Type 0
  Ready s = IsReady u crypto secret group_id normalization allow_empty r s

  abbrev pub added : Column → List Text → Comparison → Comparison
  added column batch s = (on_registry (add group_id column batch) s).1

  pub add-Ready :
      (column : Column) (batch : List Text) (s : Comparison)
      → Ready s
      → Ready (added column batch s)
  add-Ready column batch s k = (
    add-IsFaithful group_id column batch s.cache k.0,
    add-mappings group_id column batch s.cache.registry ∙ k.1,
    k.2,
  )

  -- What a step has done with the digests: those that are added and those that wait, in order.
  pub record Moved (column : Column) (values others before batch : List Text) (t : Comparison)
      : Type 0 where
    pub added_ones : List Text
    pub represents : Holds column added_ones others t.cache.registry.work
    pub in_order : added_ones ++ batch ≡ values ++ before
    pub ready : Ready t

  pub push-Moved :
      (column : Column) (values others batch batch' : List Text) (d : Text) (s t : Comparison)
      → Ready s
      → Holds column values others s.cache.registry.work
      → push u crypto secret group_id normalization allow_empty fetch_size column batch d s
        ≡ (ok batch', t)
      → Moved column values others (batch ++ (d ∷ [])) batch' t × (t.metrics ≡ s.metrics)
  unfolding push
  push-Moved column values others batch batch' d s t k w h =
      let more = batch ++ (d ∷ []) in
      elim (Bool-cases (leb fetch_size (length more))) [
        | inr room ↦
            (let q : s ≡ t = ground arith in
              let b : more ≡ batch' = ground arith in
              (
                record {
                  added_ones = values;
                  represents = subst (λ c. Holds column values others c.cache.registry.work) q w;
                  in_order = ap (λ x. values ++ x) (sym b);
                  ready = subst Ready q k;
                },
                ap (λ c. c.metrics) (sym q),
              ))
        | inl full ↦ elim (Result-cases (add group_id column more s.cache.registry).0) [
          | inr (e, x) ↦ absurd (ground arith)
          | inl (u', x) ↦
              (let q : added column more s ≡ t = ground arith in
                let b : [] ≡ batch' = ground arith in
                let end = (add group_id column more s.cache.registry).1 in
                (
                  record {
                    added_ones = values ++ more;
                    represents =
                        subst (λ c. Holds column (values ++ more) others c.cache.registry.work) q
                          (add-Holds group_id column more values others s.cache.registry end
                            (ap (λ o. (o, end)) x) w);
                    in_order =
                        subst (λ y. (values ++ more) ++ y ≡ values ++ more) b
                          (append-nil (values ++ more));
                    ready = subst Ready q (add-Ready column more s k);
                  },
                  ap (λ c. c.metrics) (sym q),
                ))
        ]
      ]

  -- The digest of the expected replacement of a value, if it has one.
  abbrev pub digests_of : Value → List Text
  digests_of v = elim (mapped_text u crypto secret group_id normalization allow_empty r v) [
    | none ↦ []
    | some x ↦ elim (digest crypto secret group_id x) [ err e ↦ [] | ok d ↦ d ∷ [] ]
  ]

  abbrev pub is_mapped : Value → Bool
  is_mapped v = is_some (mapped_text u crypto secret group_id normalization allow_empty r v)

  pub expect-Moved :
      (wanted seen batch batch' : List Text) (v : Value) (s t : Comparison)
      → Ready s
      → Represents wanted seen s.cache.registry.work
      → expect u crypto secret group_id normalization allow_empty fetch_size batch v s
        ≡ (ok batch', t)
      → Moved expected wanted seen (batch ++ digests_of v) batch' t
        × (failed t.metrics ≡ (failed s.metrics || not (is_mapped v)))
  unfolding expect Holds
  expect-Moved wanted seen batch batch' v s t k w h =
      let found = expected_of u crypto secret group_id normalization allow_empty r v (checked s) in
      let ready =
        expected-cache u crypto secret group_id normalization allow_empty r v (checked s) k in
      let same =
        expected-registry u crypto secret group_id normalization allow_empty r v (checked s) k in
      let work = subst (λ (c : Registry). Represents wanted seen c.work) same w in
      elim (Result-cases found.0) [
        | inr (e, x) ↦ absurd (ground arith)
        | inl (none, x) ↦
            (let missing =
                expected-none u crypto secret group_id normalization allow_empty r v (checked s) k
                  x in
              let q : found.1 ≡ t = ground arith in
              let b : batch ≡ batch' = ground arith in
              let nothing : digests_of v ≡ [] = ground (arith, missing.0) in
              (
                record {
                  added_ones = wanted;
                  represents = subst (λ c. Represents wanted seen c.cache.registry.work) q work;
                  in_order =
                      subst (λ ds. wanted ++ batch' ≡ wanted ++ (batch ++ ds)) (sym nothing)
                        (rw append-nil (ap (λ y. wanted ++ y) (sym b)));
                  ready = subst Ready q ready;
                },
                ground (arith, missing.0, ap (λ c. failed c.metrics) (sym q) ∙ missing.1),
              ))
        | inl (some replacement, x) ↦
            elim (Result-cases (digest crypto secret group_id replacement)) [
              | inr (e, y) ↦ absurd (ground arith)
              | inl (d, y) ↦
                  (let hit =
                      expected-some u crypto secret group_id normalization allow_empty r v
                        (checked s) replacement k x in
                    let done =
                      push-Moved expected wanted seen batch batch' d found.1 t ready work
                        (ground arith) in
                    (
                      subst (λ ds. Moved expected wanted seen (batch ++ ds) batch' t)
                          (ground (arith, hit.0)) done.0,
                      ground
                          (arith, hit.0, failed-row_checked s.metrics, ap failed (done.1 ∙ hit.1)),
                    ))
            ]
      ]
